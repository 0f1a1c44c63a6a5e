-- ===== src/Fragment/Owner.antt =====
-- The newest fragment over a byte, and the sort that puts it first.
use place.Common.{
  ℕ, ◌≤◌, ◌≡◌, refl, ◌∙◌, List, [], ◌∷◌, Option, none, some, arith, All, ltb, if◌then◌else◌,
  Bool-cases, Option-cases, inl, inr,
}
use place.Fragment.{Fragment, insert_by, sort_by, newer}
use place.Fragment.Cover.{covers}
use place.Fragment.Shadow.{first_cover}

-- The one with the higher seq; of two alike, the one that stands first.
abbrev pub newer_of : Fragment → Option Fragment → Option Fragment
newer_of f none = some f
newer_of f (some g) = if ltb f.seq g.seq then some g else some f

-- The fragment with the highest seq among those that cover byte `x`.
unfoldable pub newest : List Fragment → ℕ → Option Fragment
newest [] x = none
newest (f ∷ fs) x = let rest = newest fs x in if covers f x then newer_of f rest else rest

abbrev pub Descending : List Fragment → Type 0
Descending [] = Unit {0}
Descending (f ∷ fs) = All (λ g. g.seq ≤ f.seq) fs × Descending fs

abbrev AtMost : ℕ → List Fragment → Type 0
AtMost n = All (λ g. g.seq ≤ n)

AtMost-mono : (n m : ℕ) (l : List Fragment) → n ≤ m → AtMost n l → AtMost m l
AtMost-mono n m [] h a = tt
AtMost-mono n m (f ∷ fs) h a = (omega arith, AtMost-mono n m fs h a.1)

insert_by-AtMost :
    (n : ℕ) (f : Fragment) (l : List Fragment)
    → f.seq ≤ n
    → AtMost n l
    → AtMost n (insert_by newer f l)
unfolding insert_by
insert_by-AtMost n f [] h a = (h, tt)
insert_by-AtMost n f (g ∷ gs) h a = elim (Bool-cases (newer g f)) [
  | inl t ↦ rw t (a.0, insert_by-AtMost n f gs h a.1)
  | inr t ↦ rw t (h, a)
]

insert_by-Descending :
    (f : Fragment) (l : List Fragment) → Descending l → Descending (insert_by newer f l)
unfolding insert_by
insert_by-Descending f [] d = (tt, tt)
insert_by-Descending f (g ∷ gs) d = elim (Bool-cases (newer g f)) [
  | inl t ↦ rw t (insert_by-AtMost g.seq f gs (ground arith) d.0, insert_by-Descending f gs d.1)
  | inr t ↦ rw t ((ground arith, AtMost-mono g.seq f.seq gs (ground arith) d.0), d)
]

pub sort_by-Descending : (l : List Fragment) → Descending (sort_by newer l)
unfolding sort_by
sort_by-Descending [] = tt
sort_by-Descending (f ∷ fs) = insert_by-Descending f (sort_by newer fs) (sort_by-Descending fs)

first_cover-le :
    (l : List Fragment) (x n : ℕ) (f : Fragment) → AtMost n l → first_cover l x ≡ some f → f.seq ≤ n
unfolding first_cover
first_cover-le [] x n f a e = cc
first_cover-le (g ∷ gs) x n f a e = ground (arith, first_cover-le gs x n f a.1)

first_cover-insert_by :
    (f : Fragment) (l : List Fragment) (x : ℕ)
    → Descending l
    → first_cover (insert_by newer f l) x
      ≡ (if covers f x then newer_of f (first_cover l x) else first_cover l x)
unfolding first_cover insert_by
first_cover-insert_by f [] x d = refl
first_cover-insert_by f (g ∷ gs) x d = elim (Bool-cases (newer g f)) [
  | inl t ↦ ground (arith, t, first_cover-insert_by f gs x d.1)
  | inr t ↦ elim (Option-cases (first_cover gs x)) [
    | inl n ↦ ground (arith, t, n)
    | inr (c, s) ↦ ground (arith, t, s, first_cover-le gs x g.seq c d.0 s)
  ]
]

-- In the sorted list the first fragment over a byte is the newest.
pub first_cover-sort_by : (l : List Fragment) (x : ℕ) → first_cover (sort_by newer l) x ≡ newest l x
unfolding sort_by newest
first_cover-sort_by [] x = unfold first_cover in refl
first_cover-sort_by (f ∷ fs) x =
    first_cover-insert_by f (sort_by newer fs) x (sort_by-Descending fs)
    ∙ rw (first_cover-sort_by fs x)
