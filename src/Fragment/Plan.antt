-- ===== src/Fragment/Plan.antt =====
-- planRead: the plan lays the read range out end to end, and each byte of it comes from the newest
-- fragment over it.
use place.Common.{
  ℕ, ◌+◌, ◌-◌, ◌≤◌, ◌<◌, ◌≡◌, refl, ap, ◌∙◌, List, [], ◌∷◌, ◌++◌, map, Option, none, some, arith,
  All, All-append, ◌==◌, if◌then◌else◌, Bool-cases, eq_of_==, inl, inr,
}
use place.Fragment.{
  Fragment, ReadSlice, Ivl, newer, sort_by, cover, read_slice, sparse_slice, slice_before,
  plan_read,
}
use place.Fragment.Cover.{
  Source, hole, at, address, inside, hits, hits-append, Good, open_hits, IsOpen, Reads, Cuts,
}
use place.Fragment.Shadow.{
  source_of, unless_owned, cover-IsOpen, cover-open_hits, cover-hits, cover-Good, cover-IsSpan,
  cover-Cuts,
}
use place.Fragment.Owner.{newest, first_cover-sort_by}
use place.Fragment.Tiles.{Tiles, Exactly, sort_by-All, sort_by-hits, sort_by-Tiles}

abbrev pub slice_lo : ReadSlice → ℕ
slice_lo s = s.logical_off

abbrev pub slice_hi : ReadSlice → ℕ
slice_hi s = s.logical_off + s.length

-- Where the reader of a slice finds byte `x` of the file.
abbrev pub slice_source : ReadSlice → ℕ → Source
slice_source s x =
    if s.sparse
    then hole
    else at s.locator.tier s.locator.segment_id (s.locator.offset + (x - s.logical_off))

-- The source of byte `x` by the first slice that holds it.
unfoldable pub resolve : List ReadSlice → ℕ → Option Source
resolve [] x = none
resolve (s ∷ l) x =
    if inside (slice_lo s) (slice_hi s) x then some (slice_source s x) else resolve l x

resolve-Good :
    (l : List ReadSlice) (x : ℕ) (e : Source)
    → Good slice_lo slice_hi slice_source x e l
    → 0 < hits slice_lo slice_hi x l
    → resolve l x ≡ some e
unfolding resolve hits
resolve-Good [] x e g h = absurd (omega arith)
resolve-Good (s ∷ l) x e g h = elim (Bool-cases (inside (slice_lo s) (slice_hi s) x)) [
  | inl held ↦ rw held (ap some (g.0 held))
  | inr not_held ↦ rw not_held (resolve-Good l x e g.1 (ground arith))
]

pub reads : Reads read_slice slice_lo slice_hi slice_source
unfolding address
reads = record {
  lo_emit = λ f s e. refl;
  hi_emit = λ f s e h. omega arith;
  src_emit = λ f s e x h k. ap (at f.tier f.segment_id) (omega arith);
}

sparse-hits :
    (x : ℕ) (us : List Ivl)
    → All IsOpen us
    → hits slice_lo slice_hi x (map sparse_slice us) ≡ open_hits x us
unfolding hits open_hits
sparse-hits x [] h = refl
sparse-hits x (u ∷ us) h = ground (arith, sparse-hits x us h.1)

sparse-IsSpan :
    (us : List Ivl) → All IsOpen us → All (λ s. slice_lo s < slice_hi s) (map sparse_slice us)
sparse-IsSpan [] h = tt
sparse-IsSpan (u ∷ us) h = (omega arith, sparse-IsSpan us h.1)

-- What is left uncovered is a hole.
sparse-Good :
    (x : ℕ) (e : Source) (us : List Ivl)
    → (0 < open_hits x us → hole ≡ e)
    → All IsOpen us
    → Good slice_lo slice_hi slice_source x e (map sparse_slice us)
unfolding open_hits hits
sparse-Good x e [] own h = tt
sparse-Good x e (u ∷ us) own h =
    ((λ held. own (ground arith)), sparse-Good x e us (λ p. own (ground arith)) h.1)

hole_of_unowned : (o : Option Fragment) (n x : ℕ) → 0 < unless_owned o n → hole ≡ source_of o x
hole_of_unowned none n x h = refl
hole_of_unowned (some f) n x h = absurd (omega arith)

module _ (frags : List Fragment) (off len : ℕ) where
  abbrev whole : List Ivl
  whole = record { start = off; end = off + len } ∷ []

  abbrev taken : List ReadSlice
  taken = (cover read_slice (sort_by newer frags) whole []).0

  abbrev uncovered : List Ivl
  uncovered = (cover read_slice (sort_by newer frags) whole []).1

  plan_read_pos :
      0 < len → plan_read frags off len ≡ sort_by slice_before (taken ++ map sparse_slice uncovered)
  unfolding plan_read
  plan_read_pos h = ground arith

  uncovered-IsOpen : 0 < len → All IsOpen uncovered
  uncovered-IsOpen h = cover-IsOpen reads (sort_by newer frags) whole [] (omega arith)

  whole-hits :
      (x : ℕ)
      → hits slice_lo slice_hi x [] + open_hits x whole
        ≡ (if inside off (off + len) x then 1 else 0)
  unfolding hits open_hits
  whole-hits x = ground arith

  pieces-hits :
      0 < len → Exactly slice_lo slice_hi off (off + len) (taken ++ map sparse_slice uncovered)
  pieces-hits h x =
      hits-append slice_lo slice_hi x taken (map sparse_slice uncovered)
      ∙ ap (λ n. hits slice_lo slice_hi x taken + n) (sparse-hits x uncovered (uncovered-IsOpen h))
      ∙ cover-hits reads (sort_by newer frags) whole [] x (omega arith)
      ∙ whole-hits x

  hole_left : (x : ℕ) → 0 < open_hits x uncovered → hole ≡ source_of (newest frags x) x
  hole_left x p =
      hole_of_unowned (newest frags x) (open_hits x whole) x
        (rw (cover-open_hits reads (sort_by newer frags) whole [] x, first_cover-sort_by) at p)

  pieces-Good :
      (x : ℕ)
      → 0 < len
      → Good slice_lo slice_hi slice_source x
          (source_of (newest frags x) x)
          (taken ++ map sparse_slice uncovered)
  pieces-Good x h =
      All-append _ taken _
        (cover-Good reads (sort_by newer frags) whole [] x _ (omega arith) tt
          (λ _. ap (λ o. source_of o x) (first_cover-sort_by frags x)))
        (sparse-Good x _ uncovered (hole_left x) (uncovered-IsOpen h))

-- The plan of any read lays [off, off + len) out end to end in non-empty slices, where every
-- fragment has a byte at least.
pub plan_read-Tiles :
    (frags : List Fragment) (off len : ℕ)
    → All (λ f. 0 < f.length) frags
    → Tiles slice_lo slice_hi (plan_read frags off len) off (off + len)
plan_read-Tiles frags off len p = elim (Bool-cases (len == 0)) [
  | inl z ↦ unfold plan_read in rw z (omega (arith, eq_of_== len 0 z))
  | inr n ↦
      let pos : 0 < len = ground arith in
      rw (plan_read_pos frags off len pos) (
        sort_by-Tiles slice_lo slice_hi
          (taken frags off len ++ map sparse_slice (uncovered frags off len)) off (off + len)
          (All-append _ (taken frags off len) _
            (cover-IsSpan reads (sort_by newer frags) (whole frags off len) []
              (sort_by-All newer _ frags p) (omega arith) tt)
            (sparse-IsSpan (uncovered frags off len) (uncovered-IsOpen frags off len pos)))
          (omega arith) (pieces-hits frags off len pos))
]

-- Each byte of the read range comes from the newest fragment that covers it, at the byte's own
-- place in the fragment's payload, and is a hole if no fragment covers it.
pub resolve-plan_read :
    (frags : List Fragment) (off len x : ℕ)
    → off ≤ x
    → x < off + len
    → resolve (plan_read frags off len) x ≡ some (source_of (newest frags x) x)
resolve-plan_read frags off len x lo hi =
    let pos : 0 < len = omega arith in
    let all = taken frags off len ++ map sparse_slice (uncovered frags off len) in
    rw (plan_read_pos frags off len pos) (
      resolve-Good (sort_by slice_before all) x _
        (sort_by-All slice_before _ all (pieces-Good frags off len x pos))
        (ground (arith, sort_by-hits slice_lo slice_hi x all, pieces-hits frags off len pos x)))

sparse-All :
    (P : ReadSlice → Type 0) (us : List Ivl)
    → ((u : Ivl) → P (sparse_slice u))
    → All P (map sparse_slice us)
sparse-All P [] h = tt
sparse-All P (u ∷ us) h = (h u, sparse-All P us h)

-- What holds of every part of every fragment, and of a hole, holds of every slice.
pub plan_read-Cuts :
    (P : ReadSlice → Type 0) (frags : List Fragment) (off len : ℕ)
    → All (λ f. (0 < f.length) × Cuts reads P f) frags
    → ((u : Ivl) → P (sparse_slice u))
    → All P (plan_read frags off len)
plan_read-Cuts P frags off len cuts holes = elim (Bool-cases (len == 0)) [
  | inl z ↦ unfold plan_read in rw z tt
  | inr n ↦
      let pos : 0 < len = ground arith in
      rw (plan_read_pos frags off len pos) (
        sort_by-All slice_before P _ (
          All-append P (taken frags off len) _
            (cover-Cuts reads P (sort_by newer frags) (whole frags off len) []
              (sort_by-All newer _ frags cuts) (omega arith) tt)
            (sparse-All P (uncovered frags off len) holes)))
]
