-- ===== src/Keys/Prefix.antt =====
-- PrefixUpperBound bounds exactly the keys with the prefix.
use place.Common.{
  ℕ, ◌+◌, ◌%◌, ◌≡◌, refl, false, not, ◌&&◌, List, [], ◌∷◌, ◌++◌, Option, none, some, arith, All,
  ◌==◌, if◌then◌else◌, Bool-cases, Option-cases, inl, inr, ap, ◌∙◌,
}
use place.Common.Bytes.{IsByte}
use place.Common.Lex.{bytes_lt, has_prefix}
use place.Keys.{bump_last, prefix_upper_bound}
use mathlib.Core.List.{reverse, reverse-append}

-- The same bound from the front: the rest is bumped if it can be, and otherwise dropped.
-- A byte that wraps is dropped.
abbrev or_bump : Option (List ℕ) → ℕ → Option (List ℕ)
or_bump (some e) b = some (b ∷ e)
or_bump none b = if (b + 1) % 256 == 0 then none else some ((b + 1) % 256 ∷ [])

bump : List ℕ → Option (List ℕ)
bump [] = none
bump (b ∷ bs) = or_bump (bump bs) b

bump_last_snoc : (q : List ℕ) (b : ℕ) → bump_last (q ++ b ∷ []) ≡ or_bump (bump_last q) b
unfolding bump_last
bump_last_snoc [] b = ground arith
bump_last_snoc (c ∷ q) b = elim (Bool-cases ((c + 1) % 256 == 0)) [
  | inl wraps ↦ rw (wraps, bump_last_snoc q b)
  | inr stays ↦ rw (stays, reverse-append ((c + 1) % 256 ∷ q) (b ∷ []))
]

bump_last-reverse : (p : List ℕ) → bump_last (reverse p) ≡ bump p
unfolding bump
bump_last-reverse [] = unfold bump_last in refl
bump_last-reverse (b ∷ p) =
    ap bump_last (reverse-append (b ∷ []) p)
    ∙ bump_last_snoc (reverse p) b
    ∙ ap (λ o. or_bump o b) (bump_last-reverse p)

bytes_lt-nil : (k : List ℕ) → bytes_lt k [] ≡ false
unfolding bytes_lt
bytes_lt-nil [] = refl
bytes_lt-nil (c ∷ k) = refl

bump-eq-none :
    (p k : List ℕ)
    → bump p ≡ none
    → All IsByte p
    → All IsByte k
    → has_prefix p k ≡ not (bytes_lt k p)
unfolding bump has_prefix bytes_lt
bump-eq-none [] [] h hp hk = refl
bump-eq-none [] (c ∷ k) h hp hk = refl
bump-eq-none (b ∷ p) [] h hp hk = refl
bump-eq-none (b ∷ p) (c ∷ k) h hp hk = ground (arith, bump-eq-none p k)

bump-eq-some :
    (p e k : List ℕ)
    → bump p ≡ some e
    → All IsByte p
    → All IsByte k
    → has_prefix p k ≡ (not (bytes_lt k p) && bytes_lt k e)
unfolding bump has_prefix bytes_lt
bump-eq-some [] e k h hp hk = cc
bump-eq-some (b ∷ p) e [] h hp hk = refl
bump-eq-some (b ∷ p) e (c ∷ k) h hp hk = elim (Option-cases (bump p)) [
  | inl n ↦
      let q : e ≡ (b + 1) % 256 ∷ [] = ground arith in
      rw q (ground (arith, bump-eq-none p k n hp.1 hk.1, bytes_lt-nil k))
  | inr (f, s) ↦
      let q : e ≡ b ∷ f = ground arith in rw q (ground (arith, bump-eq-some p f k s hp.1 hk.1))
]

-- A key has the prefix exactly if it is not below the prefix and is below the bound.
pub prefix_upper_bound-has_prefix :
    (prefix e k : List ℕ)
    → prefix_upper_bound prefix ≡ some e
    → All IsByte prefix
    → All IsByte k
    → has_prefix prefix k ≡ (not (bytes_lt k prefix) && bytes_lt k e)
unfolding prefix_upper_bound
prefix_upper_bound-has_prefix prefix e k h = bump-eq-some prefix e k (rw bump_last-reverse at h)

-- Without a bound every key from the prefix on has the prefix.
pub prefix_upper_bound-none :
    (prefix k : List ℕ)
    → prefix_upper_bound prefix ≡ none
    → All IsByte prefix
    → All IsByte k
    → has_prefix prefix k ≡ not (bytes_lt k prefix)
unfolding prefix_upper_bound
prefix_upper_bound-none prefix k h = bump-eq-none prefix k (rw bump_last-reverse at h)
