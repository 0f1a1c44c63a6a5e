-- ===== src/SegmentSet/Remove.antt =====
-- Remove against the set's invariant.
use place.Common.{
  ℕ, ◌≡◌, refl, Bool, true, false, List, [], ◌∷◌, Option, none, some, arith, ◌==◌, if◌then◌else◌,
  Bool-cases, Option-cases, inl, inr,
}
use place.Segment.{Segment}
use place.SegmentSet.{SegmentSet, Result, get_segment, delete_segment, get, remove}
use place.SegmentSet.Rotate.{IsValid, ActiveOpen, delete_segment-All, get_segment-delete_segment_ne}

get_segment-delete_segment :
    (l : List Segment) (id : ℕ) → get_segment (delete_segment l id) id ≡ none
unfolding get_segment delete_segment
get_segment-delete_segment [] id = refl
get_segment-delete_segment (s ∷ l) id = ground (arith, get_segment-delete_segment l id)

-- if s.active == seg { s.active = nil }
abbrev without : ℕ → Option ℕ → Option ℕ
without id none = none
without id (some a) = if a == id then none else some a

without-ActiveOpen :
    (l : List Segment) (id : ℕ) (active : Option ℕ)
    → ActiveOpen l active
    → ActiveOpen (delete_segment l id) (without id active)
without-ActiveOpen l id none h = tt
without-ActiveOpen l id (some a) h = elim (Bool-cases (a == id)) [
  | inl same ↦ rw same tt
  | inr other ↦ rw (other) (rw (get_segment-delete_segment_ne l a id other) h)
]

-- What Remove promises of the set that it leaves.
abbrev Removed : ℕ → SegmentSet × Result (Unit {0}) → Type 0
Removed id r = IsValid r.0 × (get_segment r.0.segments id ≡ none)

either :
    (id : ℕ) (x y : SegmentSet × Result (Unit {0})) (b : Bool)
    → Removed id x
    → Removed id y
    → Removed id (if b then x else y)
either id x y true h k = h
either id x y false h k = k

closed-IsValid :
    (set : SegmentSet) (id : ℕ) (stray : List Segment)
    → IsValid set
    → IsValid (record set {
      segments = delete_segment set.segments id;
      active = without id set.active;
      stray = stray;
    })
      × (get_segment (delete_segment set.segments id) id ≡ none)
closed-IsValid set id stray v = (
  record {
    below = delete_segment-All _ set.segments id v.below;
    active_open = without-ActiveOpen set.segments id set.active v.active_open;
  },
  get_segment-delete_segment set.segments id,
)

-- Removing a segment keeps the set valid, and the set finds none under its id any more, whether the
-- system calls succeed or fail.
pub remove-IsValid :
    (set : SegmentSet) (id : ℕ) (unlink_fails fsync_fails : Bool)
    → IsValid set
    → IsValid (remove set id unlink_fails fsync_fails).0
      × (get (remove set id unlink_fails fsync_fails).0 id ≡ none)
unfolding remove get
remove-IsValid set id unlink_fails fsync_fails v =
    elim (Option-cases (get_segment set.segments id)) [
      | inl missing ↦ rw (missing, remove) (v, missing)
      | inr (s, found) ↦
          rw (found, remove)
            (either id _ _ unlink_fails (closed-IsValid set id (s ∷ set.stray) v) (
              either id _ _ fsync_fails (closed-IsValid set id set.stray v)
                (closed-IsValid set id set.stray v)))
    ]
