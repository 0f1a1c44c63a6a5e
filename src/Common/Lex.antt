-- ===== src/Common/Lex.antt =====
-- bytes.Compare, the order in which the key/value store keeps its keys.
use Prim.Native.Nat.{ℕ, ◌+◌, ◌*◌, ◌^◌, ◌<◌}
use mathlib.Core.Path.{◌≡◌, refl, sym, ap₂, ◌∙◌}
use mathlib.Core.Bool.{Bool, true, false}
use mathlib.Core.List.{List, [], ◌∷◌, ◌++◌}
use native.Mathlib.Omega.{arith}
use place.Common.Tests.{ltb, if◌then◌else◌}
use place.Common.Lists.{length, All}
use place.Common.Bytes.{
  IsByte, put_be, from_be, from_be-lt, from_be-put_be, put_be-IsByte, length-put_be,
}

-- bytes.Compare(a, b) < 0
unfoldable pub bytes_lt : List ℕ → List ℕ → Bool
bytes_lt [] [] = false
bytes_lt [] (y ∷ ys) = true
bytes_lt (x ∷ xs) [] = false
bytes_lt (x ∷ xs) (y ∷ ys) = if ltb x y then true else if ltb y x then false else bytes_lt xs ys

-- strings.HasPrefix over bytes
unfoldable pub has_prefix : List ℕ → List ℕ → Bool
has_prefix [] k = true
has_prefix (p ∷ ps) [] = false
has_prefix (p ∷ ps) (b ∷ bs) =
    if ltb p b then false else if ltb b p then false else has_prefix ps bs

-- Fields of one length compare first.
pub bytes_lt-append :
    (xs ys r s : List ℕ)
    → length xs ≡ length ys
    → bytes_lt (xs ++ r) (ys ++ s)
      ≡ (if bytes_lt xs ys then true else if bytes_lt ys xs then false else bytes_lt r s)
unfolding bytes_lt
bytes_lt-append [] [] r s e = refl
bytes_lt-append [] (y ∷ ys) r s e = absurd (omega arith)
bytes_lt-append (x ∷ xs) [] r s e = absurd (omega arith)
bytes_lt-append (x ∷ xs) (y ∷ ys) r s e = ground (arith, bytes_lt-append xs ys r s)

bytes_lt-from_be :
    (xs ys : List ℕ) (acc : ℕ)
    → All IsByte xs
    → All IsByte ys
    → length xs ≡ length ys
    → bytes_lt xs ys ≡ ltb (from_be acc xs) (from_be acc ys)
unfolding bytes_lt from_be
bytes_lt-from_be [] [] acc hx hy e = ground arith
bytes_lt-from_be [] (y ∷ ys) acc hx hy e = absurd (omega arith)
bytes_lt-from_be (x ∷ xs) [] acc hx hy e = absurd (omega arith)
bytes_lt-from_be (x ∷ xs) (y ∷ ys) acc hx hy e = ground (
  arith,
  bytes_lt-from_be xs ys (acc * 256 + x),
  from_be-lt xs ys (acc * 256 + x) (acc * 256 + y),
  from_be-lt ys xs (acc * 256 + y) (acc * 256 + x),
)

-- Big-endian fields compare as their numbers.
pub bytes_lt-put_be :
    (w a b : ℕ) → a < 256 ^ w → b < 256 ^ w → bytes_lt (put_be w a) (put_be w b) ≡ ltb a b
bytes_lt-put_be w a b ha hb =
    bytes_lt-from_be (put_be w a) (put_be w b) 0 (put_be-IsByte w a) (put_be-IsByte w b)
      (length-put_be w a ∙ sym (length-put_be w b))
    ∙ ap₂ ltb (from_be-put_be w a ha) (from_be-put_be w b hb)
