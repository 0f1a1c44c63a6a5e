-- ===== src/SegmentSet/Rotate.antt =====
-- The set's invariant, and what Active hands out.
use place.Common.{
  ℕ, ◌+◌, ◌^◌, ◌≤◌, ◌<◌, ◌≡◌, ◌⊎◌, inl, inr, refl, true, false, List, [], ◌∷◌, Option, none, some,
  arith, All, ◌==◌, Bool-cases, Option-cases,
}
use place.Segment.{Segment}
use place.SegmentSet.{
  SegmentSet, ok, get_segment, delete_segment, open_segment, has_room, rotate, rotated, active_ctx,
  get, RotateFaults, is_some,
}

-- Every open segment's id is below the next one, and the active segment is open.
abbrev pub ActiveOpen : List Segment → Option ℕ → Type 0
ActiveOpen l none = Unit {0}
ActiveOpen l (some a) = is_some (get_segment l a) ≡ true

pub record IsValid (set : SegmentSet) : Type 0 where
  pub below : All (λ s. s.id < set.next_id) set.segments
  pub active_open : ActiveOpen set.segments set.active

pub delete_segment-All :
    (P : Segment → Type 0) (l : List Segment) (id : ℕ) → All P l → All P (delete_segment l id)
unfolding delete_segment
delete_segment-All P [] id h = tt
delete_segment-All P (s ∷ l) id h = elim (Bool-cases (s.id == id)) [
  | inl e ↦ rw e (delete_segment-All P l id h.1)
  | inr e ↦ rw e (h.0, delete_segment-All P l id h.1)
]

pub All-below_mono :
    (n m : ℕ) (l : List Segment) → n ≤ m → All (λ s. s.id < n) l → All (λ s. s.id < m) l
All-below_mono n m [] h a = tt
All-below_mono n m (s ∷ l) h a = (omega arith, All-below_mono n m l h a.1)

pub get_segment-delete_segment_ne :
    (l : List Segment) (a id : ℕ)
    → (a == id) ≡ false
    → get_segment (delete_segment l id) a ≡ get_segment l a
unfolding get_segment delete_segment
get_segment-delete_segment_ne [] a id n = refl
get_segment-delete_segment_ne (s ∷ l) a id n =
    ground (arith, get_segment-delete_segment_ne l a id n)

pub open_segment-id : (stray : List Segment) (id : ℕ) → (open_segment stray id).id ≡ id
unfolding open_segment
open_segment-id stray id = ground arith

pub rotate_inv :
    (set set' : SegmentSet) (faults : RotateFaults) (id : ℕ)
    → rotate set faults ≡ (set', ok id)
    → (set' ≡ rotated set) × (id ≡ set.next_id)
unfolding rotate
rotate_inv set set' faults id e = (ground arith, ground arith)

rotated-IsValid :
    (set : SegmentSet) → IsValid set → set.next_id + 1 < 2 ^ 32 → IsValid (rotated set)
unfolding rotated get_segment
rotated-IsValid set v room = record {
  below = (
    omega (arith, open_segment-id set.stray set.next_id),
    All-below_mono set.next_id _ (delete_segment set.segments set.next_id) (omega arith)
        (delete_segment-All _ set.segments set.next_id v.below),
  );
  active_open = ground (arith, open_segment-id set.stray set.next_id);
}

get-rotated :
    (set : SegmentSet) → get (rotated set) set.next_id ≡ some (open_segment set.stray set.next_id)
unfolding rotated get get_segment
get-rotated set = ground (arith, open_segment-id set.stray set.next_id)

-- A segment with the id that is active, and has room for the record or was just opened.
abbrev pub HasRoom : SegmentSet → SegmentSet → ℕ → ℕ → Type 0
HasRoom set set' n id =
    (s : Segment) × (get set' id ≡ some s)
    × (set'.active ≡ some id)
    × ((s.size + n ≤ set.max_size) ⊎ (id ≡ set.next_id))

rotate-HasRoom :
    (set set' : SegmentSet) (n : ℕ) (faults : RotateFaults) (id : ℕ)
    → IsValid set
    → set.next_id + 1 < 2 ^ 32
    → rotate set faults ≡ (set', ok id)
    → IsValid set' × HasRoom set set' n id
rotate-HasRoom set set' n faults id v room e =
    let (same, at) = rotate_inv set set' faults id e in
    rw (same, at)
      (
        rotated-IsValid set v room,
        (open_segment set.stray set.next_id, get-rotated set, unfold rotated in refl, inr refl),
      )

pub active_ctx_inv :
    (set set' : SegmentSet) (n : ℕ) (faults : RotateFaults) (id : ℕ)
    → active_ctx set n faults ≡ (set', ok id)
    → (rotate set faults ≡ (set', ok id))
      ⊎ ((set ≡ set') × (set.active ≡ some id) × (has_room set n ≡ true))
unfolding active_ctx
active_ctx_inv set set' n faults id e = elim (Option-cases set.active) [
  | inl none_active ↦ inl (ground (arith, none_active))
  | inr (a, active) ↦ elim (Bool-cases (has_room set n)) [
    | inl r ↦ inr (ground (arith, active, r), ground (arith, active, r), r)
    | inr r ↦ inl (ground (arith, active, r))
  ]
]

has_room_inv :
    (set : SegmentSet) (n a : ℕ)
    → set.active ≡ some a
    → has_room set n ≡ true
    → (s : Segment) × (get set a ≡ some s) × (s.size + n ≤ set.max_size)
unfolding has_room get
has_room_inv set n a active r = elim (Option-cases (get_segment set.segments a)) [
  | inl missing ↦ absurd (ground (arith, missing))
  | inr (s, found) ↦ (s, found, ground (arith, found))
]

-- Active, where it succeeds, keeps the set valid and returns the id of its active segment, which has
-- room for the record or was opened just now under the next id. Ids are not used up.
pub active_ctx-IsValid :
    (set set' : SegmentSet) (n : ℕ) (faults : RotateFaults) (id : ℕ)
    → IsValid set
    → set.next_id + 1 < 2 ^ 32
    → active_ctx set n faults ≡ (set', ok id)
    → IsValid set' × HasRoom set set' n id
active_ctx-IsValid set set' n faults id v room e = elim (active_ctx_inv set set' n faults id e) [
  | inl r ↦ rotate-HasRoom set set' n faults id v room r
  | inr (same, active, fits) ↦
      let (s, found, small) = has_room_inv set n id active fits in
      rw (← same) (v, (s, found, active, inl small))
]
