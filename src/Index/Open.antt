-- ===== src/Index/Open.antt =====
-- index/index.go, Open once the configuration stands: the database, the segments of both tiers and
-- the repair of their tails (segment/segment.go, RepairTail), the counter and the migration of blobs.
use place.Common.{ℕ, ◌%◌, ◌^◌, Bool, List, none, some, if◌then◌else◌}
use place.Errors.{Error, Result, ok, err, ◌>>=◌}
use place.Fragment.{tier_hot, tier_cold}
use place.Segment.{Segment}
use place.SegmentSet.{SegmentSet, get_segment, repair_segment}
use place.SegmentSet
use place.SegmentSet.Names.{DirEntry, listed_ids}
use place.SegmentSet.Open.{open_set}
use place.Kv.{Pebble}
use place.Kv.Migrate.{Bbolt, Files, MigrateFaults, open_database}
use place.Index.{Index}
use place.Index.Append.{put_segment}
use place.Index.Migrate.{migrate_blobs_to_fragments}

-- A tier's directory of segments. `listing_fails` is a failure of MkdirAll or ReadDir.
pub record Tier : Type 0 where
  pub listing_fails : Bool
  pub listing : List DirEntry
  pub files : List Segment
  pub fails : ℕ → Bool

abbrev pub in_index {ℓ} : {A : Type ℓ} → SegmentSet.Result A → Result A
in_index (SegmentSet.ok a) = ok a
in_index (SegmentSet.err e) = err Error.segment_failed

abbrev pub open_tier : ℕ → ℕ → Tier → Result SegmentSet
open_tier tier max_size dir =
    if dir.listing_fails
    then err Error.segment_failed
    else in_index (open_set tier max_size dir.files (listed_ids dir.listing) dir.fails)

abbrev pub put_repaired :
    SegmentSet → Segment × SegmentSet.Result (Unit {0}) → SegmentSet.Result SegmentSet
put_repaired set (seg, SegmentSet.err e) = SegmentSet.err e
put_repaired set (seg, SegmentSet.ok u) =
    SegmentSet.ok (record set { segments = put_segment set.segments seg })

-- RepairTail; the active segment is an open one.
unfoldable pub repair_tail : SegmentSet → SegmentSet.Result SegmentSet
repair_tail set = elim set.active [
  | none ↦ SegmentSet.ok set
  | some a ↦ elim (get_segment set.segments a) [
    | none ↦ SegmentSet.ok set
    | some seg ↦ put_repaired set (repair_segment seg)
  ]
]

abbrev pub started : {p : Pebble} → Index p × Result (Unit {0}) → Result (Index p)
started (idx, err e) = err e
started (idx, ok u) = ok idx

-- `now` is the clock in nanoseconds. What an Open that fails leaves on disk is not in its result.
module _ {p : Pebble} (stripe_size max_size now : ℕ) (hot cold : Tier) where
  unfoldable pub open_parts : p.Db → Result (Index p)
  open_parts db = open_tier tier_hot max_size hot >>= λ h.
      open_tier tier_cold max_size cold >>= λ c. in_index (repair_tail h) >>= λ h'.
      in_index (repair_tail c) >>= λ c'.
      ok
        (record { stripe_size = stripe_size; db = db; hot = h'; cold = c'; seq_gen = now % 2 ^ 64 })

  unfoldable pub open_index :
      {bolt : Bbolt} → p.Db → MigrateFaults → Files p bolt → Result (Index p)
  open_index fresh faults files = (open_database fresh faults files).1 >>= λ db.
      open_parts db >>= λ idx. started (migrate_blobs_to_fragments idx)
