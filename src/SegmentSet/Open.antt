-- ===== src/SegmentSet/Open.antt =====
-- segment/segment.go, OpenSet: the segments that a directory holds, opened in order of their ids.
-- `listing` has the ids that the names of the .seg files parse to, and `files` the files by the id
-- of their own name.
use place.Common.{
  ℕ, ◌+◌, ◌%◌, ◌^◌, ◌<◌, ◌≡◌, refl, Bool, true, List, [], ◌∷◌, Option, none, some, arith, All, ltb,
  if◌then◌else◌, Bool-cases, inl, inr,
}
use place.Fragment.{sort_by, insert_by}
use place.Segment.{Segment}
use place.SegmentSet.{
  SegmentSet, SetError, Result, ok, err, get_segment, delete_segment, open_segment, is_some,
}
use place.SegmentSet.Rotate.{
  IsValid, ActiveOpen, delete_segment-All, All-below_mono, get_segment-delete_segment_ne,
  open_segment-id,
}

-- s.segments[id] = seg, and the next id past it, a uint32.
unfoldable pub opened : SegmentSet → ℕ → SegmentSet
opened set id =
    let next = (id + 1) % 2 ^ 32 in
    record set {
      segments = open_segment set.stray id ∷ delete_segment set.segments id;
      next_id = if ltb set.next_id next then next else set.next_id;
      stray = delete_segment set.stray id;
    }

-- for _, id := range ids; `fails` says which files cannot be opened.
unfoldable pub open_loop : (ℕ → Bool) → List ℕ → SegmentSet → Result SegmentSet
open_loop fails [] set = ok set
open_loop fails (id ∷ ids) set =
    let rest = open_loop fails ids (opened set id) in
    if fails id then err SetError.open_failed else rest

unfoldable pub last : List ℕ → Option ℕ
last [] = none
last (id ∷ []) = some id
last (id ∷ id' ∷ ids) = last (id' ∷ ids)

abbrev pub new_set : ℕ → ℕ → List Segment → SegmentSet
new_set tier max_size files = record {
  tier = tier;
  max_size = max_size;
  segments = [];
  active = none;
  next_id = 0;
  stray = files;
}

-- s.active = s.segments[ids[len(ids)-1]]
unfoldable pub activated : List ℕ → Result SegmentSet → Result SegmentSet
activated ids (ok set) = ok (record set { active = last ids })
activated ids (err e) = err e

unfoldable pub open_set : ℕ → ℕ → List Segment → List ℕ → (ℕ → Bool) → Result SegmentSet
open_set tier max_size files listing fails =
    let ids = sort_by ltb listing in
    activated ids (open_loop fails ids (new_set tier max_size files))

abbrev Below : SegmentSet → Type 0
Below set = All (λ s. s.id < set.next_id) set.segments

abbrev Has : SegmentSet → ℕ → Type 0
Has set a = is_some (get_segment set.segments a) ≡ true

opened-Below : (set : SegmentSet) (id : ℕ) → Below set → id + 1 < 2 ^ 32 → Below (opened set id)
unfolding opened
opened-Below set id b room = (
  ground (arith, open_segment-id set.stray id),
  All-below_mono set.next_id _ (delete_segment set.segments id) (ground arith)
      (delete_segment-All _ set.segments id b),
)

opened-Has_new : (set : SegmentSet) (id : ℕ) → Has (opened set id) id
unfolding opened get_segment
opened-Has_new set id = ground (arith, open_segment-id set.stray id)

opened-Has_old : (set : SegmentSet) (id a : ℕ) → Has set a → Has (opened set id) a
unfolding opened get_segment
opened-Has_old set id a h =
    ground (arith, open_segment-id set.stray id, get_segment-delete_segment_ne set.segments a id)

insert_by-All : (P : ℕ → Type 0) (a : ℕ) (l : List ℕ) → P a → All P l → All P (insert_by ltb a l)
unfolding insert_by
insert_by-All P a [] p h = (p, tt)
insert_by-All P a (b ∷ l) p h = elim (Bool-cases (ltb b a)) [
  | inl e ↦ rw e (h.0, insert_by-All P a l p h.1)
  | inr e ↦ rw e (p, h)
]

pub sort_by-All : (P : ℕ → Type 0) (l : List ℕ) → All P l → All P (sort_by ltb l)
unfolding sort_by
sort_by-All P [] h = tt
sort_by-All P (a ∷ l) h = insert_by-All P a (sort_by ltb l) h.0 (sort_by-All P l h.1)

pub open_loop_step :
    (fails : ℕ → Bool) (id : ℕ) (ids : List ℕ) (set set' : SegmentSet)
    → open_loop fails (id ∷ ids) set ≡ ok set'
    → open_loop fails ids (opened set id) ≡ ok set'
unfolding open_loop
open_loop_step fails id ids set set' e = elim (Bool-cases (fails id)) [
  | inl failed ↦ absurd (ground (arith, failed))
  | inr fine ↦ ground (arith, fine)
]

module _ (fails : ℕ → Bool) where
  open_loop-Below :
      (ids : List ℕ) (set set' : SegmentSet)
      → open_loop fails ids set ≡ ok set'
      → All (λ id. id + 1 < 2 ^ 32) ids
      → Below set
      → Below set'
  unfolding open_loop
  open_loop-Below [] set set' e r b = let same : set' ≡ set = ground arith in rw same b
  open_loop-Below (id ∷ ids) set set' e r b =
      open_loop-Below ids (opened set id) set' (open_loop_step fails id ids set set' e) r.1
        (opened-Below set id b r.0)

  open_loop-Has :
      (ids : List ℕ) (set set' : SegmentSet) (a : ℕ)
      → open_loop fails ids set ≡ ok set'
      → Has set a
      → Has set' a
  unfolding open_loop
  open_loop-Has [] set set' a e h = let same : set' ≡ set = ground arith in rw same h
  open_loop-Has (id ∷ ids) set set' a e h =
      open_loop-Has ids (opened set id) set' a (open_loop_step fails id ids set set' e)
        (opened-Has_old set id a h)

  open_loop-last :
      (ids : List ℕ) (set set' : SegmentSet)
      → open_loop fails ids set ≡ ok set'
      → ActiveOpen set'.segments (last ids)
  unfolding last
  open_loop-last [] set set' e = tt
  open_loop-last (id ∷ []) set set' e =
      open_loop-Has [] (opened set id) set' id (open_loop_step fails id [] set set' e)
        (opened-Has_new set id)
  open_loop-last (id ∷ id' ∷ ids) set set' e =
      open_loop-last (id' ∷ ids) (opened set id) set'
        (open_loop_step fails id (id' ∷ ids) set set' e)

pub activated_inv :
    (ids : List ℕ) (r : Result SegmentSet) (set : SegmentSet)
    → activated ids r ≡ ok set
    → (s : SegmentSet) × (r ≡ ok s) × (set ≡ record s { active = last ids })
unfolding activated
activated_inv ids (ok s) set e = (s, refl, ground arith)
activated_inv ids (err p) set e = absurd (ground arith)

-- A set that was opened is valid, whatever the directory holds, where no file's id is the largest
-- uint32.
pub open_set-IsValid :
    (tier max_size : ℕ) (files : List Segment) (listing : List ℕ) (fails : ℕ → Bool)
    (set : SegmentSet)
    → All (λ id. id + 1 < 2 ^ 32) listing
    → open_set tier max_size files listing fails ≡ ok set
    → IsValid set
unfolding open_set
open_set-IsValid tier max_size files listing fails set room e =
    let ids = sort_by ltb listing in
    let start = new_set tier max_size files in
    let (s, opened_all, same) = activated_inv ids (open_loop fails ids start) set e in
    rw same (record {
      below = open_loop-Below fails ids start s opened_all (sort_by-All _ listing room) tt;
      active_open = open_loop-last fails ids start s opened_all;
    })
