-- ===== src/Index/Append.antt =====
-- index/index.go, AppendToWithTxCtx and AppendBatchCtx: records into segments, and then one batch of
-- fragments and the caller's own writes. What the disk does is an argument, by the extent's position.
use place.Common.{
  ℕ, zero, suc, ◌+◌, ◌-◌, ◌*◌, ◌%◌, ◌^◌, Bool, List, [], ◌∷◌, ◌++◌, Option, none, some, ltb, ◌==◌,
  if◌then◌else◌, length, take, drop,
}
use place.Errors.{Error, Result, ok, err}
use place.Keys.{fragment_key}
use place.Fragment.{Fragment, encode_fragments}
use place.Segment.{Segment, RecordHeader, Write, append_ctx, framed_size}
use place.Segment
use place.SegmentSet.{SegmentSet, RotateFaults, active_ctx}
use place.SegmentSet
use place.Kv.{Pebble, Batch, new_batch, set}
use place.Index.{Index, set_for, with_set, stripe_of, bump_seq, commit_index}

pub record AppendExtent : Type 0 where
  pub seq : ℕ
  pub off : ℕ
  pub bytes : List ℕ
  pub tier : ℕ

-- What the disk does for the extents of one call: rotations, writes and syncs by position. The
-- sync of all touched segments at the end of an append is that at 0.
pub record Disk : Type 0 where
  pub rotations : ℕ → RotateFaults
  pub writes : ℕ → Write
  pub sync_fails : ℕ → Bool

unfoldable pub stripe_end : ℕ → ℕ → ℕ
unfolding stripe_of
stripe_end stripe_size off = (stripe_of stripe_size off + 1) * stripe_size

-- s.segments[id] is a pointer: the segment that was written to is the one in the set.
unfoldable pub put_segment : List Segment → Segment → List Segment
put_segment [] seg = []
put_segment (s ∷ l) seg = if s.id == seg.id then seg ∷ l else s ∷ put_segment l seg

abbrev pub record_header : ℕ → ℕ → AppendExtent → RecordHeader
record_header inode stripe_id e = record {
  inode = inode;
  stripe_id = stripe_id;
  seq = e.seq;
  logical_off = e.off;
  length = length e.bytes % 2 ^ 32;
}

abbrev pub fragment_at : AppendExtent → ℕ → ℕ → Fragment
fragment_at e segment_id payload_off = record {
  seq = e.seq;
  logical_off = e.off;
  length = length e.bytes;
  tier = e.tier;
  segment_id = segment_id;
  segment_offset = payload_off;
}

-- ActiveCtx and AppendCtx on one set, for a record of `payload`.
unfoldable pub write_record :
    SegmentSet → RecordHeader → List ℕ → RotateFaults → Write → SegmentSet × Result (ℕ × ℕ)
write_record s h payload faults w =
    let (s', active) = active_ctx s (framed_size (length payload)) faults in
    elim active [
      | SegmentSet.err e ↦ (s', err Error.segment_failed)
      | SegmentSet.ok id ↦ elim (SegmentSet.get s' id) [
        | none ↦ (s', err Error.segment_missing)
        | some seg ↦
            let (seg', appended) = append_ctx seg h payload w in
            (
              record s' { segments = put_segment s'.segments seg' },
              elim appended [
                | Segment.ok payload_off ↦ ok (id, payload_off)
                | Segment.err e ↦ err Error.segment_failed
              ],
            )
      ]
    ]

module _ {p : Pebble} where
  -- One extent of the staging loop: the state, and the stripe and the fragment that are pending.
  unfoldable pub stage_extent :
      Index p → ℕ → AppendExtent → RotateFaults → Write → Index p × Result (ℕ × Fragment)
  stage_extent idx inode e faults w =
      let stripe_id = stripe_of idx.stripe_size e.off in
      let (s, written) =
        write_record (set_for idx e.tier) (record_header inode stripe_id e) e.bytes faults w in
      if ltb (stripe_end idx.stripe_size e.off) (e.off + length e.bytes)
      then (idx, err Error.straddles)
      else (
        with_set idx e.tier s,
        elim written [
          | err x ↦ err x
          | ok (id, payload_off) ↦ ok (stripe_id, fragment_at e id payload_off)
        ],
      )

  -- for i, e := range extents, with the fragments that are pending.
  unfoldable pub stage :
      Disk
      → ℕ
      → Index p
      → ℕ
      → List AppendExtent
      → List (ℕ × Fragment)
      → Index p × Result (List (ℕ × Fragment))
  stage disk i idx inode [] pendings = (idx, ok pendings)
  stage disk i idx inode (e ∷ extents) pendings =
      let (idx', staged) = stage_extent idx inode e (disk.rotations i) (disk.writes i) in
      elim staged [
        | err x ↦ (idx', err x)
        | ok pending ↦ stage disk (suc i) idx' inode extents (pendings ++ pending ∷ [])
      ]

  -- txHook reads the database and adds its own writes to the batch, or fails.
  abbrev pub run_hook : Index p → Option (p.Db → Batch → Result Batch) → Batch → Result Batch
  run_hook idx none b = ok b
  run_hook idx (some hook) b = hook idx.db b

  abbrev pub commit_hooked :
      Index p → Option (p.Db → Batch → Result Batch) → Batch → Index p × Result (Unit {0})
  commit_hooked idx hook b = elim (run_hook idx hook b) [
    | err x ↦ (idx, err x)
    | ok b' ↦ commit_index idx b'
  ]

unfoldable pub fragment_batch : ℕ → List (ℕ × Fragment) → Batch → Batch
fragment_batch inode [] b = b
fragment_batch inode ((stripe_id, f) ∷ pendings) b =
    fragment_batch inode pendings
      (set b (fragment_key inode stripe_id f.seq) (encode_fragments (f ∷ [])))

module _ {p : Pebble} where
  unfoldable pub append_batch_ctx :
      Disk
      → Index p
      → ℕ
      → List AppendExtent
      → Option (p.Db → Batch → Result Batch)
      → Index p × Result (Unit {0})
  append_batch_ctx disk idx inode [] none = (idx, ok tt)
  append_batch_ctx disk idx inode [] (some hook) = commit_hooked idx (some hook) new_batch
  append_batch_ctx disk idx inode (e ∷ extents) hook =
      let (idx', staged) = stage disk 0 idx inode (e ∷ extents) [] in
      elim staged [
        | err x ↦ (idx', err x)
        | ok pendings ↦
            if disk.sync_fails 0
            then (idx', err Error.segment_failed)
            else commit_hooked idx' hook (fragment_batch inode pendings new_batch)
      ]

  -- The splitting loop of AppendToWithTxCtx; `none` is the panic on an offset that no stripe holds.
  unfoldable pub split_payload :
      ℕ → Index p → ℕ → List ℕ → ℕ → List AppendExtent → Option (Index p × List AppendExtent)
  split_payload fuel idx off [] tier extents = some (idx, extents)
  split_payload zero idx off (x ∷ rem) tier extents = none
  split_payload (suc fuel) idx off (x ∷ rem) tier extents =
      let end = stripe_end idx.stripe_size off in
      let n = if ltb end (off + length (x ∷ rem)) then end - off else length (x ∷ rem) in
      let idx' = bump_seq idx in
      split_payload fuel idx' (off + n) (drop n (x ∷ rem)) tier (
        extents
        ++ record { seq = idx'.seq_gen; off = off; bytes = take n (x ∷ rem); tier = tier } ∷ [])

  unfoldable pub append_to_with_tx_ctx :
      Disk
      → Index p
      → ℕ
      → ℕ
      → List ℕ
      → ℕ
      → Option (p.Db → Batch → Result Batch)
      → Option (Index p × Result (Unit {0}))
  append_to_with_tx_ctx disk idx inode off [] tier none = some (idx, ok tt)
  append_to_with_tx_ctx disk idx inode off [] tier (some hook) =
      some (commit_hooked idx (some hook) new_batch)
  append_to_with_tx_ctx disk idx inode off (x ∷ payload) tier hook =
      elim (split_payload (length (x ∷ payload)) idx off (x ∷ payload) tier []) [
        | none ↦ none
        | some (idx', extents) ↦ some (append_batch_ctx disk idx' inode extents hook)
      ]
