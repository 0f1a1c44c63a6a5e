-- ===== src/Fragment/Tiles.antt =====
-- Sorting keeps what a list of spans holds, and a sorted list that holds each byte of a range once
-- lays the range out end to end.
use place.Common.{
  ℕ, ◌-◌, ◌≤◌, ◌<◌, ◌≡◌, refl, ◌∙◌, Bool, List, [], ◌∷◌, arith, All, ltb, if◌then◌else◌, Bool-cases,
  inl, inr,
}
use place.Fragment.{insert_by, sort_by}
use place.Fragment.Cover.{inside, hits}

module _ {A : Type 0} (before : A → A → Bool) (P : A → Type 0) where
  insert_by-All : (a : A) (l : List A) → P a → All P l → All P (insert_by before a l)
  unfolding insert_by
  insert_by-All a [] h k = (h, tt)
  insert_by-All a (b ∷ l) h k = elim (Bool-cases (before b a)) [
    | inl t ↦ rw t (k.0, insert_by-All a l h k.1)
    | inr t ↦ rw t (h, k)
  ]

  pub sort_by-All : (l : List A) → All P l → All P (sort_by before l)
  unfolding sort_by
  sort_by-All [] h = tt
  sort_by-All (a ∷ l) h = insert_by-All a (sort_by before l) h.0 (sort_by-All l h.1)

module _ {A : Type 0} (lo hi : A → ℕ) where
  abbrev pub lo_before : A → A → Bool
  lo_before a b = ltb (lo a) (lo b)

  abbrev pub IsSpan : A → Type 0
  IsSpan a = lo a < hi a

  -- The spans follow one another from `s` to `e`, and none is empty.
  abbrev pub Tiles : List A → ℕ → ℕ → Type 0
  Tiles [] s e = s ≡ e
  Tiles (a ∷ l) s e = (lo a ≡ s) × IsSpan a × Tiles l (hi a) e

  abbrev FromOn : ℕ → List A → Type 0
  FromOn n = All (λ a. n ≤ lo a)

  abbrev Ascending : List A → Type 0
  Ascending [] = Unit {0}
  Ascending (a ∷ l) = FromOn (lo a) l × Ascending l

  FromOn-mono : (n m : ℕ) (l : List A) → n ≤ m → FromOn m l → FromOn n l
  FromOn-mono n m [] h a = tt
  FromOn-mono n m (b ∷ l) h a = (omega arith, FromOn-mono n m l h a.1)

  insert_by-Ascending : (a : A) (l : List A) → Ascending l → Ascending (insert_by lo_before a l)
  unfolding insert_by
  insert_by-Ascending a [] d = (tt, tt)
  insert_by-Ascending a (b ∷ l) d = elim (Bool-cases (lo_before b a)) [
    | inl t ↦ rw t (insert_by-All lo_before _ a l (ground arith) d.0, insert_by-Ascending a l d.1)
    | inr t ↦ rw t ((ground arith, FromOn-mono (lo a) (lo b) l (ground arith) d.0), d)
  ]

  sort_by-Ascending : (l : List A) → Ascending (sort_by lo_before l)
  unfolding sort_by
  sort_by-Ascending [] = tt
  sort_by-Ascending (a ∷ l) = insert_by-Ascending a (sort_by lo_before l) (sort_by-Ascending l)

  insert_by-hits :
      (x : ℕ) (a : A) (l : List A) → hits lo hi x (insert_by lo_before a l) ≡ hits lo hi x (a ∷ l)
  unfolding insert_by hits
  insert_by-hits x a [] = refl
  insert_by-hits x a (b ∷ l) = ground (arith, insert_by-hits x a l)

  hits-cons :
      (x : ℕ) (a : A) (l m : List A)
      → hits lo hi x l ≡ hits lo hi x m
      → hits lo hi x (a ∷ l) ≡ hits lo hi x (a ∷ m)
  unfolding hits
  hits-cons x a l m h = omega arith

  pub sort_by-hits : (x : ℕ) (l : List A) → hits lo hi x (sort_by lo_before l) ≡ hits lo hi x l
  unfolding sort_by
  sort_by-hits x [] = refl
  sort_by-hits x (a ∷ l) =
      insert_by-hits x a (sort_by lo_before l)
      ∙ hits-cons x a (sort_by lo_before l) l (sort_by-hits x l)

  -- Nothing below the first start is held.
  hits-below : (x n : ℕ) (l : List A) → FromOn n l → x < n → hits lo hi x l ≡ 0
  unfolding hits
  hits-below x n [] f h = refl
  hits-below x n (a ∷ l) f h = ground (arith, hits-below x n l f.1)

  abbrev pub Exactly : ℕ → ℕ → List A → Type 0
  Exactly s e l = (x : ℕ) → hits lo hi x l ≡ (if inside s e x then 1 else 0)

  Tiles-of_Ascending :
      (l : List A) (s e : ℕ) → All IsSpan l → Ascending l → s ≤ e → Exactly s e l → Tiles l s e
  unfolding hits
  Tiles-of_Ascending [] s e p d h k = ground (arith, k s)
  Tiles-of_Ascending (a ∷ l) s e p d h k =
      let above : s ≤ lo a = ground (arith, k (lo a)) in
      let first : lo a ≡ s = ground (arith, k s, k (lo a), hits-below s (lo a) l d.0) in
      let ends : hi a ≤ e = ground (arith, k (hi a - 1)) in
      (first, p.0, Tiles-of_Ascending l (hi a) e p.1 d.1 ends (λ x. ground (arith, k x)))

  -- A sorted list of spans that holds each byte of [s, e) once and no other tiles the range.
  pub sort_by-Tiles :
      (l : List A) (s e : ℕ)
      → All IsSpan l
      → s ≤ e
      → Exactly s e l
      → Tiles (sort_by lo_before l) s e
  sort_by-Tiles l s e p h k =
      Tiles-of_Ascending (sort_by lo_before l) s e (sort_by-All lo_before _ l p)
        (sort_by-Ascending l) h (λ x. sort_by-hits x l ∙ k x)
