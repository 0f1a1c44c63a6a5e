-- ===== src/Index/Move.antt =====
-- index/index.go, Move: one stripe rewritten into a tier.
use place.Common.{
  ℕ, suc, ◌%◌, ◌^◌, true, false, List, [], ◌∷◌, ◌++◌, none, some, ◌==◌, if◌then◌else◌, length,
}
use place.Errors.{Error, Result, ok, err}
use place.Keys.{fragment_key, fragment_stripe_prefix, prefix_upper_bound, is_fragment_key}
use place.Fragment.{Fragment, encode_fragments, canonical_view}
use place.Segment.{RecordHeader}
use place.Segment
use place.SegmentSet
use place.Kv.{Bytes, Pebble, Batch, new_batch, set, iter}
use place.Index.{
  Index, set_for, with_set, bump_seq, commit_index, fragments_in, delete_all, read_result,
}
use place.Index.Append.{Disk, write_record}

unfoldable pub fragment_keys : List (Bytes × Bytes) → List Bytes
fragment_keys [] = []
fragment_keys ((k, v) ∷ rest) =
    let more = fragment_keys rest in if is_fragment_key k then k ∷ more else more

unfoldable pub set_fragments : ℕ → ℕ → Batch → List Fragment → Batch
set_fragments inode stripe_id b [] = b
set_fragments inode stripe_id b (f ∷ fs) =
    set_fragments inode stripe_id
      (set b (fragment_key inode stripe_id f.seq) (encode_fragments (f ∷ []))) fs

module _ {p : Pebble} where
  -- The bytes of a fragment, from its own tier's segment.
  unfoldable pub source_bytes : Index p → Fragment → Result (List ℕ)
  source_bytes idx f = elim (SegmentSet.get (set_for idx f.tier) f.segment_id) [
    | none ↦ err Error.segment_missing
    | some seg ↦ read_result (Segment.read_at seg f.segment_offset f.length)
  ]

  -- A fragment of another tier: its bytes copied into a segment of the target tier, and synced.
  unfoldable pub copy_fragment :
      Disk → ℕ → Index p → ℕ → ℕ → ℕ → ℕ → Fragment → Index p × Result Fragment
  copy_fragment disk i idx inode stripe_id target new_seq f = elim (source_bytes idx f) [
    | err e ↦ (idx, err e)
    | ok bytes ↦
        let h : RecordHeader = record {
          inode = inode;
          stripe_id = stripe_id;
          seq = new_seq;
          logical_off = f.logical_off;
          length = length bytes % 2 ^ 32;
        } in
        let (set', written) =
          write_record (set_for idx target) h bytes (disk.rotations i) (disk.writes i) in
        (
          with_set idx target set',
          elim written [
            | err e ↦ err e
            | ok (id, payload_off) ↦
                if disk.sync_fails i
                then err Error.segment_failed
                else ok (record {
                  seq = new_seq;
                  logical_off = f.logical_off;
                  length = f.length;
                  tier = target;
                  segment_id = id;
                  segment_offset = payload_off;
                })
          ],
        )
  ]

  -- for _, f := range view, each under the next seq.
  unfoldable pub move_fragments :
      Disk
      → ℕ
      → Index p
      → ℕ
      → ℕ
      → ℕ
      → List Fragment
      → List Fragment
      → Index p × Result (List Fragment)
  move_fragments disk i idx inode stripe_id target [] new_frags = (idx, ok new_frags)
  move_fragments disk i idx inode stripe_id target (f ∷ view) new_frags =
      let idx' = bump_seq idx in
      elim (f.tier == target) [
        | true ↦
            move_fragments disk (suc i) idx' inode stripe_id target view
              (new_frags ++ record f { seq = idx'.seq_gen } ∷ [])
        | false ↦
            let (idx'', copied) = copy_fragment disk i idx' inode stripe_id target idx'.seq_gen f in
            elim copied [
              | err e ↦ (idx'', err e)
              | ok g ↦
                  move_fragments disk (suc i) idx'' inode stripe_id target view
                    (new_frags ++ g ∷ [])
            ]
      ]

  unfoldable pub move : Disk → Index p → ℕ → ℕ → ℕ → Index p × Result (Unit {0})
  move disk idx inode stripe_id target =
      let prefix = fragment_stripe_prefix inode stripe_id in
      elim (iter p idx.db prefix (prefix_upper_bound prefix)) [
        | err e ↦ (idx, err e)
        | ok entries ↦ elim (fragments_in entries) [
          | [] ↦ (idx, ok tt)
          | f ∷ frags ↦
              let (idx', moved) =
                move_fragments disk 0 idx inode stripe_id target (canonical_view (f ∷ frags)) [] in
              elim moved [
                | err e ↦ (idx', err e)
                | ok new_frags ↦ commit_index idx' (
                    set_fragments inode stripe_id (delete_all new_batch (fragment_keys entries))
                      new_frags)
              ]
        ]
      ]
