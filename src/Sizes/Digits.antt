-- ===== src/Sizes/Digits.antt =====
-- Printed numbers: their digits, and what ParseInt and the split of the suffix make of them.
use native.Mathlib.Nat.{pow-suc}
use place.Common.{
  ℕ, zero, suc, ◌+◌, ◌-◌, ◌*◌, ◌/◌, ◌%◌, ◌^◌, ◌<◌, ◌≡◌, refl, ap, ◌∙◌, true, false, [], ◌∷◌, ◌++◌,
  some, arith, All, All-append, ltb, Bool-cases, inl, inr,
}
use place.Kv.{Bytes}
use place.Sizes.{
  is_space, is_letter, is_digit, is_empty, trim_left, trim_right, trim_space, split_suffix,
  parse_digits, digits,
}

abbrev pub Digits : Bytes → Type 0
Digits = All (λ c. is_digit c ≡ true)

abbrev pub Letters : Bytes → Type 0
Letters = All (λ c. is_letter c ≡ true)

abbrev pub Solid : Bytes → Type 0
Solid = All (λ c. is_space c ≡ false)

pub digit-solid : (c : ℕ) → is_digit c ≡ true → is_space c ≡ false
digit-solid c h = ground arith

pub letter-solid : (c : ℕ) → is_letter c ≡ true → is_space c ≡ false
letter-solid c h = ground arith

digit-no_letter : (c : ℕ) → is_digit c ≡ true → is_letter c ≡ false
digit-no_letter c h = ground arith

-- A text without spaces is not trimmed.
trim_left-Solid : (s : Bytes) → Solid s → trim_left s ≡ s
unfolding trim_left
trim_left-Solid [] h = refl
trim_left-Solid (c ∷ cs) h = rw h.0 refl

trim_right-Solid : (s : Bytes) → Solid s → trim_right s ≡ s
unfolding trim_right
trim_right-Solid [] h = refl
trim_right-Solid (c ∷ cs) h = ground (arith, h.0, trim_right-Solid cs h.1)

pub trim_space-Solid : (s : Bytes) → Solid s → trim_space s ≡ s
unfolding trim_space
trim_space-Solid s h = ap trim_right (trim_left-Solid s h) ∙ trim_right-Solid s h

split_suffix-Letters : (l : Bytes) → Letters l → split_suffix l ≡ ([], l)
unfolding split_suffix
split_suffix-Letters [] h = refl
split_suffix-Letters (c ∷ cs) h = rw (split_suffix-Letters cs h.1, h.0) refl

-- Digits are split from the letters behind them.
pub split_suffix-Digits : (ds l : Bytes) → Digits ds → Letters l → split_suffix (ds ++ l) ≡ (ds, l)
unfolding split_suffix
split_suffix-Digits [] l h k = split_suffix-Letters l k
split_suffix-Digits (d ∷ ds) l h k =
    rw (split_suffix-Digits ds l h.1 k, digit-no_letter d h.0) (ground arith)

append-not_empty : (s : Bytes) (c : ℕ) → is_empty (s ++ c ∷ []) ≡ false
append-not_empty [] c = refl
append-not_empty (x ∷ xs) c = refl

pub digits-Digits : (f n : ℕ) → Digits (digits f n)
unfolding digits
digits-Digits zero n = tt
digits-Digits (suc f) n = elim (Bool-cases (ltb n 10)) [
  | inl one ↦ rw one (ground arith, tt)
  | inr more ↦
      rw more (All-append _ (digits f (n / 10)) _ (digits-Digits f (n / 10)) (ground arith, tt))
]

parse_digits-append :
    (xs : Bytes) (c a acc : ℕ)
    → is_digit c ≡ true
    → parse_digits acc xs ≡ some a
    → parse_digits acc (xs ++ c ∷ []) ≡ some (a * 10 + (c - 48))
unfolding parse_digits
parse_digits-append [] c a acc d e = ground arith
parse_digits-append (x ∷ xs) c a acc d e = elim (Bool-cases (is_digit x)) [
  | inl digit ↦ rw digit (parse_digits-append xs c a (acc * 10 + (x - 48)) d (rw digit at e))
  | inr other ↦ absurd (ground (arith, other))
]

shrinks : (f n : ℕ) → n < 10 ^ suc (suc f) → n / 10 < 10 ^ suc f
shrinks f n h = omega (arith, pow-suc 10 (suc f))

-- The digits of a number are read as that number, with enough rounds.
pub parse_digits-digits : (f n : ℕ) → n < 10 ^ suc f → parse_digits 0 (digits (suc f) n) ≡ some n
unfolding digits parse_digits
parse_digits-digits zero n h = ground arith
parse_digits-digits (suc f) n h = elim (Bool-cases (ltb n 10)) [
  | inl one ↦ rw one (ground arith)
  | inr more ↦ rw more (
      parse_digits-append (digits (suc f) (n / 10)) (48 + n % 10) (n / 10) 0 (ground arith)
        (parse_digits-digits f (n / 10) (shrinks f n h))
      ∙ ap some (omega arith))
]

pub digits-not_empty : (f n : ℕ) → is_empty (digits (suc f) n) ≡ false
unfolding digits
digits-not_empty f n = elim (Bool-cases (ltb n 10)) [
  | inl one ↦ rw one refl
  | inr more ↦ rw more (append-not_empty (digits f (n / 10)) _)
]
