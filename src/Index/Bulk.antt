-- ===== src/Index/Bulk.antt =====
-- index/index.go, BulkSession: records without a sync for each, and one batch of fragments at Commit.
use place.Common.{
  ℕ, zero, suc, ◌+◌, ◌-◌, ◌%◌, ◌^◌, Bool, List, [], ◌∷◌, ◌++◌, Option, none, some, ltb,
  if◌then◌else◌, length, take, drop,
}
use place.Errors.{Error, Result, ok, err}
use place.Keys.{fragment_key}
use place.Fragment.{encode_fragments}
use place.Segment.{RecordHeader}
use place.Kv.{Pebble, Batch, new_batch, set}
use place.Index.{Index, set_for, with_set, stripe_of, bump_seq, commit_index}
use place.Index.Append.{Disk, stripe_end, write_record}

pub record PendingFrag : Type 0 where
  pub stripe_id : ℕ
  pub logical_off : ℕ
  pub length : ℕ
  pub segment_id : ℕ
  pub segment_offset : ℕ

-- The segments that it touched are only synced, at Commit.
pub record BulkSession : Type 0 where
  pub inode : ℕ
  pub tier : ℕ
  pub pending : List PendingFrag

abbrev pub new_bulk_session : ℕ → ℕ → BulkSession
new_bulk_session inode tier = record { inode = inode; tier = tier; pending = [] }

module _ {p : Pebble} where
  -- The loop of Write from round `i` on: the index, the session and the error; `none` is the panic on
  -- an offset that no stripe holds.
  unfoldable pub write_chunks :
      ℕ
      → Disk
      → ℕ
      → Index p
      → BulkSession
      → ℕ
      → List ℕ
      → Option (Index p × BulkSession × Result (Unit {0}))
  write_chunks fuel disk i idx s off [] = some (idx, s, ok tt)
  write_chunks zero disk i idx s off (x ∷ rem) = none
  write_chunks (suc fuel) disk i idx s off (x ∷ rem) =
      let end = stripe_end idx.stripe_size off in
      let stripe_id = stripe_of idx.stripe_size off in
      let n = if ltb end (off + length (x ∷ rem)) then end - off else length (x ∷ rem) in
      let h : RecordHeader = record {
        inode = s.inode;
        stripe_id = stripe_id;
        seq = 0;
        logical_off = off;
        length = n % 2 ^ 32;
      } in
      let (set', written) =
        write_record (set_for idx s.tier) h (take n (x ∷ rem)) (disk.rotations i) (disk.writes i) in
      let idx' = with_set idx s.tier set' in
      elim written [
        | err e ↦ some (idx', s, err e)
        | ok (id, payload_off) ↦
            write_chunks fuel disk (suc i) idx'
              (record s {
                pending =
                    s.pending
                    ++ record {
                      stripe_id = stripe_id;
                      logical_off = off;
                      length = n;
                      segment_id = id;
                      segment_offset = payload_off;
                    }
                      ∷ [];
              })
              (off + n) (drop n (x ∷ rem))
      ]

  unfoldable pub write :
      Disk → Index p → BulkSession → ℕ → List ℕ → Option (Index p × BulkSession × Result (Unit {0}))
  write disk idx s off payload = write_chunks (length payload) disk 0 idx s off payload

  -- The loop of Commit over what is pending, each under the next seq.
  unfoldable pub pending_batch : Index p → BulkSession → List PendingFrag → Batch → Index p × Batch
  pending_batch idx s [] b = (idx, b)
  pending_batch idx s (f ∷ fs) b =
      let idx' = bump_seq idx in
      pending_batch idx' s fs (
        set b (fragment_key s.inode f.stripe_id idx'.seq_gen) (
          encode_fragments (
            record {
              seq = idx'.seq_gen;
              logical_off = f.logical_off;
              length = f.length;
              tier = s.tier;
              segment_id = f.segment_id;
              segment_offset = f.segment_offset;
            }
            ∷ [])))

  unfoldable pub commit : Index p → BulkSession → Bool → Index p × Result (Unit {0})
  commit idx s sync_fails =
      let (idx', b) = pending_batch idx s s.pending new_batch in
      if sync_fails then (idx, err Error.segment_failed) else commit_index idx' b

unfoldable pub abort : BulkSession → BulkSession
abort s = record s { pending = [] }
