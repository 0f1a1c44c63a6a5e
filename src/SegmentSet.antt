-- ===== src/SegmentSet.antt =====
-- segment/segment.go, the Set of one tier: rotation, lookup, removal and tail repair. An open
-- segment is found by its id; `stray` holds the .seg files of the directory that are not open.
pub mod Rotate
pub mod Repair
pub mod Open
pub mod Remove
pub mod Names
mod Examples
use place.Common.{
  ℕ, ◌+◌, ◌%◌, ◌^◌, Bool, true, false, List, [], ◌∷◌, Option, none, some, ltb, leb, ◌==◌,
  if◌then◌else◌, length, not,
}
use place.Segment.{
  RecordHeader, Segment, SegmentError, Scanned, done, failed, out_of_fuel, scan, truncate,
}
use place.Segment

pub data SetError : Type 0 where
  sync_failed open_failed fsync_dir_failed scan_failed remove_failed : SetError

pub data Result {ℓ} (A : Type ℓ) : Type ℓ where
  ok : A → Result A
  err : SetError → Result A

pub record SegmentSet : Type 0 where
  pub tier : ℕ
  pub max_size : ℕ
  pub segments : List Segment
  pub active : Option ℕ
  pub next_id : ℕ
  pub stray : List Segment

-- s.segments[id]
unfoldable pub get_segment : List Segment → ℕ → Option Segment
get_segment [] id = none
get_segment (s ∷ l) id = if s.id == id then some s else get_segment l id

unfoldable pub delete_segment : List Segment → ℕ → List Segment
delete_segment [] id = []
delete_segment (s ∷ l) id = let rest = delete_segment l id in if s.id == id then rest else s ∷ rest

-- openSegment: the file's own bytes if it is there, and else an empty file.
unfoldable pub open_segment : List Segment → ℕ → Segment
unfolding get_segment
open_segment stray id = elim (get_segment stray id) [
  | none ↦ record { id = id; bytes = []; size = 0 }
  | some s ↦ record { id = id; bytes = s.bytes; size = length s.bytes }
]

unfoldable pub active_id : SegmentSet → Option ℕ
active_id set = set.active

unfoldable pub get : SegmentSet → ℕ → Option Segment
unfolding get_segment
get set id = get_segment set.segments id

-- Which of the system calls of a rotation fail.
pub record RotateFaults : Type 0 where
  pub sync_fails : Bool
  pub open_fails : Bool
  pub fsync_dir_fails : Bool

unfoldable pub has_room : SegmentSet → ℕ → Bool
has_room set record_size = elim set.active [
  | none ↦ false
  | some a ↦ elim (get_segment set.segments a) [
    | none ↦ false
    | some s ↦ leb (s.size + record_size) set.max_size
  ]
]

abbrev pub is_some {ℓ} : {A : Type ℓ} → Option A → Bool
is_some none = false
is_some (some a) = true

-- s.segments[id] = seg; s.active = seg, for the segment that was opened at id = s.nextID.
unfoldable pub rotated : SegmentSet → SegmentSet
unfolding open_segment delete_segment
rotated set = record set {
  segments = open_segment set.stray set.next_id ∷ delete_segment set.segments set.next_id;
  active = some set.next_id;
  next_id = (set.next_id + 1) % 2 ^ 32;
  stray = delete_segment set.stray set.next_id;
}

-- What follows `id := s.nextID; s.nextID++`, a uint32. The new file stays in the directory when
-- its fsync fails.
unfoldable pub rotate : SegmentSet → RotateFaults → SegmentSet × Result ℕ
unfolding open_segment delete_segment
rotate set faults =
    let id = set.next_id in
    let bumped : SegmentSet = record set { next_id = (id + 1) % 2 ^ 32 } in
    let seg = open_segment set.stray id in
    let others = delete_segment set.stray id in
    if faults.open_fails
    then (bumped, err open_failed)
    else if faults.fsync_dir_fails
    then (record bumped { stray = seg ∷ others }, err fsync_dir_failed)
    else (rotated set, ok id)

-- The id of a segment with room for the record, after a rotation if the active one has none.
unfoldable pub active_ctx : SegmentSet → ℕ → RotateFaults → SegmentSet × Result ℕ
active_ctx set record_size faults = elim set.active [
  | none ↦ rotate set faults
  | some a ↦
      if has_room set record_size
      then (set, ok a)
      else if faults.sync_fails
      then (set, err sync_failed)
      else rotate set faults
]

-- The segment leaves the set; if the unlink fails its file stays in the directory.
unfoldable pub remove : SegmentSet → ℕ → Bool → Bool → SegmentSet × Result (Unit {0})
unfolding get_segment delete_segment
remove set id unlink_fails fsync_fails = elim (get_segment set.segments id) [
  | none ↦ (set, ok tt)
  | some s ↦
      let closed : SegmentSet = record set {
        segments = delete_segment set.segments id;
        active = elim set.active [ none ↦ none | some a ↦ if a == id then none else some a ];
      } in
      if unlink_fails
      then (record closed { stray = s ∷ set.stray }, err remove_failed)
      else if fsync_fails
      then (closed, err fsync_dir_failed)
      else (closed, ok tt)
]

-- func(RecordHeader, int64) error { return nil }
abbrev pub accept : RecordHeader → ℕ → Unit {0} → Option (Unit {0})
accept h off u = some u

-- if truncAt < size { return a.truncate(truncAt) }, where the system calls succeed.
unfoldable pub cut_to : Segment → ℕ → Segment × Result (Unit {0})
cut_to seg pos = if ltb pos seg.size then ((truncate seg pos).0, ok tt) else (seg, ok tt)

-- RepairTail on the active segment.
unfoldable pub repair_segment : Segment → Segment × Result (Unit {0})
repair_segment seg = elim (scan accept seg tt) [
  | done u pos ↦ cut_to seg pos
  | failed ↦ (seg, err scan_failed)
  | out_of_fuel ↦ (seg, err scan_failed)
]
