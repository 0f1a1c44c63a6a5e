-- ===== src/Sizes/Printed.antt =====
-- formatBytes and parseBytes: the text of a size, and what is read from it.
use mathlib.Core.List.{append-nil}
use native.Mathlib.Nat.{div-add-mod', div-le_self}
use place.Common.{
  ℕ, zero, suc, ◌*◌, ◌/◌, ◌%◌, ◌^◌, ◌≤◌, ◌<◌, ◌≡◌, refl, sym, ap, ◌∙◌, Bool, true, false, List, [],
  ◌∷◌, ◌++◌, some, arith, All, All-append, All-map, ◌==◌, Bool-cases, eq_of_==, ltb_of_lt, inl, inr,
}
use place.Common.Int.{ℤ, pos, negsuc}
use place.Kv.{Bytes}
use place.Kv.Entries.{bytes_eq}
use place.Sizes.{
  Floats, Result, ok, err, negative_size, is_digit, is_empty, trim_left, trim_right, trim_space,
  split_suffix, to_lower, unit_of, parse_digits, parse_int, signed, parse_magnitude, sized,
  to_int64, parse_bytes, digits, format_units, units, format_bytes, set, string, assigned,
}
use place.Sizes.Digits.{
  Digits, Letters, Solid, digit-solid, letter-solid, trim_space-Solid, split_suffix-Digits,
  digits-Digits, parse_digits-digits, digits-not_empty,
}

digit-no_sign : (c : ℕ) → is_digit c ≡ true → (c == b'-') ≡ false × (c == b'+') ≡ false
digit-no_sign c h = (ground arith, ground arith)

parse_magnitude-full :
    (minus : Bool) (s : Bytes)
    → is_empty s ≡ false
    → parse_magnitude minus s ≡ signed minus (parse_digits 0 s)
parse_magnitude-full minus [] e = absurd (ground arith)
parse_magnitude-full minus (c ∷ cs) e = refl

parse_int-Digits :
    (s : Bytes) → Digits s → is_empty s ≡ false → parse_int s ≡ signed false (parse_digits 0 s)
unfolding parse_int
parse_int-Digits [] h e = absurd (ground arith)
parse_int-Digits (c ∷ cs) h e = let (minus, plus) = digit-no_sign c h.0 in rw (minus, plus) refl

parse_int-digits : (n : ℕ) → n < 2 ^ 63 → parse_int (digits 20 n) ≡ some (pos n)
parse_int-digits n h =
    parse_int-Digits _ (digits-Digits 20 n) (digits-not_empty 19 n)
    ∙ ap (signed false) (parse_digits-digits 19 n (omega arith))
    ∙ rw (ltb_of_lt n (2 ^ 63) h) refl

parse_magnitude-digits :
    (n : ℕ) → n < 2 ^ 63 → parse_magnitude true (digits 20 (suc n)) ≡ some (negsuc n)
parse_magnitude-digits n h =
    parse_magnitude-full true _ (digits-not_empty 19 (suc n))
    ∙ ap (signed true) (parse_digits-digits 19 (suc n) (omega arith))
    ∙ ground arith

parse_int-minus : (n : ℕ) → n < 2 ^ 63 → parse_int (b'-' ∷ digits 20 (suc n)) ≡ some (negsuc n)
unfolding parse_int
parse_int-minus n h = parse_magnitude-digits n h

Solid-append : (s l : Bytes) → Solid s → Letters l → Solid (s ++ l)
Solid-append s l h k = All-append _ s l h (All-map l letter-solid k)

to_int64-pos : (m : ℕ) → m < 2 ^ 63 → to_int64 m ≡ pos m
unfolding to_int64
to_int64-pos m h = let same : m % 2 ^ 64 ≡ m = omega arith in rw (same, ltb_of_lt m (2 ^ 63) h) refl

-- The text of n: digits of a quotient, and the name of a unit whose multiple n is.
abbrev Written : ℕ → Bytes → Type 0
Written n s =
    (q unit : ℕ) × (name : Bytes) × (s ≡ digits 20 q ++ name)
    × (q * unit ≡ n)
    × (q ≤ n)
    × Letters name
    × (unit_of (to_lower name) ≡ some unit)

-- A unit that parseBytes reads back.
abbrev Known : ℕ × Bytes → Type 0
Known u = Letters u.1 × (unit_of (to_lower u.1) ≡ some u.0)

units-Known : All Known units
unfolding unit_of to_lower bytes_eq
units-Known = ground arith

whole_mul : (n div : ℕ) → (n % div == 0) ≡ true → n / div * div ≡ n
whole_mul n div h = omega (arith, div-add-mod' n div, eq_of_== (n % div) 0 h)

format_units-Written :
    (n : ℕ) (us : List (ℕ × Bytes)) → All Known us → Written n (format_units n us)
unfolding format_units unit_of to_lower bytes_eq
format_units-Written n [] h = (n, 1, [], sym (append-nil _), omega arith, omega arith, tt, refl)
format_units-Written n ((div, name) ∷ us) h = elim (Bool-cases (n % div == 0)) [
  | inl whole ↦
      rw whole (n / div, div, name, refl, whole_mul n div whole, div-le_self n div, h.0.0, h.0.1)
  | inr part ↦ rw part (format_units-Written n us h.1)
]

split_suffix-minus :
    (ds name : Bytes)
    → split_suffix (ds ++ name) ≡ (ds, name)
    → split_suffix (b'-' ∷ ds ++ name) ≡ (b'-' ∷ ds, name)
unfolding split_suffix
split_suffix-minus ds name h = ground (arith, h)

-- What parseBytes gives for the text of a number: a size, or the error for a negative one.
abbrev read_back : ℤ → Result
read_back (pos n) = ok (pos n)
read_back (negsuc n) = err negative_size

abbrev IsInt64 : ℤ → Type 0
IsInt64 (pos n) = n < 2 ^ 63
IsInt64 (negsuc n) = n < 2 ^ 63

module _ (fl : Floats) where
  parse_bytes-split :
      (num name : Bytes) (z : ℤ) (unit : ℕ)
      → is_empty num ≡ false
      → Solid num
      → Letters name
      → split_suffix (num ++ name) ≡ (num, name)
      → parse_int num ≡ some z
      → unit_of (to_lower name) ≡ some unit
      → parse_bytes fl (num ++ name) ≡ sized fl num unit (some z)
  unfolding parse_bytes
  parse_bytes-split [] name z unit e d k s i u = absurd (ground arith)
  parse_bytes-split (c ∷ cs) name z unit e d k s i u =
      rw
        (
          trim_space-Solid (c ∷ cs ++ name) (Solid-append (c ∷ cs) name d k),
          s,
          trim_space-Solid (c ∷ cs) d,
          trim_space-Solid name (All-map name letter-solid k),
          u,
          i,
        )
        refl

  parse_bytes-Written :
      (n : ℕ) (s : Bytes) → n < 2 ^ 63 → Written n s → parse_bytes fl s ≡ ok (pos n)
  parse_bytes-Written n s h (q, unit, name, text, size, most, k, u) =
      ap (parse_bytes fl) text
      ∙ parse_bytes-split (digits 20 q) name (pos q) unit (digits-not_empty 19 q)
          (All-map (digits 20 q) digit-solid (digits-Digits 20 q)) k
          (split_suffix-Digits (digits 20 q) name (digits-Digits 20 q) k)
          (parse_int-digits q (omega arith)) u
      ∙ ap (λ m. ok (to_int64 m)) size
      ∙ ap ok (to_int64-pos n h)

  parse_bytes-minus :
      (n : ℕ) (s : Bytes)
      → n < 2 ^ 63
      → Written (suc n) s
      → parse_bytes fl (b'-' ∷ s) ≡ err negative_size
  parse_bytes-minus n s h (zero, unit, name, text, size, most, k, u) = absurd (omega arith)
  parse_bytes-minus n s h (suc q, unit, name, text, size, most, k, u) =
      ap (λ t. parse_bytes fl (b'-' ∷ t)) text
      ∙ parse_bytes-split (b'-' ∷ digits 20 (suc q)) name (negsuc q) unit refl
          (refl, All-map (digits 20 (suc q)) digit-solid (digits-Digits 20 (suc q))) k
          (split_suffix-minus (digits 20 (suc q)) name
            (split_suffix-Digits (digits 20 (suc q)) name (digits-Digits 20 (suc q)) k))
          (parse_int-minus q (omega arith)) u

  parse_bytes-zero : parse_bytes fl (b'0' ∷ []) ≡ ok (pos 0)
  unfolding parse_bytes trim_space trim_left trim_right split_suffix to_lower unit_of bytes_eq
      parse_int to_int64
  parse_bytes-zero = refl

  parse_bytes-format_bytes : (z : ℤ) → IsInt64 z → parse_bytes fl (format_bytes z) ≡ read_back z
  unfolding format_bytes
  parse_bytes-format_bytes (pos n) h = elim (Bool-cases (n == 0)) [
    | inl empty ↦ rw (empty, eq_of_== n 0 empty) (parse_bytes-zero)
    | inr more ↦ rw more (parse_bytes-Written n _ h (format_units-Written n units units-Known))
  ]
  parse_bytes-format_bytes (negsuc n) h =
      parse_bytes-minus n _ h (format_units-Written (suc n) units units-Known)

  -- The text that String gives of an int64, handed to Set, sets that number if it is not negative;
  -- otherwise Set fails and leaves the value as it was.
  pub set-string : (b z : ℤ) → IsInt64 z → set fl b (string (some z)) ≡ assigned fl b (read_back z)
  unfolding set string
  set-string b z h = ap (assigned fl b) (parse_bytes-format_bytes z h)
