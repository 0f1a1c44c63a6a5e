-- ===== src/Common/Bytes.antt =====
-- encoding/binary's fixed-width integers over lists of bytes: little and big endian.
use Prim.Native.Nat.{ℕ, zero, suc, ◌+◌, ◌*◌, ◌/◌, ◌%◌, ◌^◌, ◌<◌}
use mathlib.Core.Path.{◌≡◌, refl, ap}
use mathlib.Core.List.{List, [], ◌∷◌, ◌++◌}
use native.Mathlib.Omega.{arith}
use native.Mathlib.Nat.{pow-suc}
use place.Common.Lists.{length, take, drop, All, All-append, length-append}

abbrev pub IsByte : ℕ → Type 0
IsByte b = b < 256

-- binary.LittleEndian.PutUint: the low byte first, `w` bytes of `v`.
unfoldable pub put_le : ℕ → ℕ → List ℕ
put_le zero v = []
put_le (suc w) v = (v % 256) ∷ put_le w (v / 256)

-- binary.LittleEndian.Uint over all of `bs`.
unfoldable pub from_le : List ℕ → ℕ
from_le [] = 0
from_le (b ∷ bs) = b + 256 * from_le bs

-- binary.BigEndian.PutUint: the high byte first.
unfoldable pub put_be : ℕ → ℕ → List ℕ
put_be zero v = []
put_be (suc w) v = put_be w (v / 256) ++ (v % 256) ∷ []

unfoldable pub from_be : ℕ → List ℕ → ℕ
from_be acc [] = acc
from_be acc (b ∷ bs) = from_be (acc * 256 + b) bs

-- `binary.LittleEndian.Uint64(buf[off:])` reads `w` bytes from `off`.
unfoldable pub le_at : List ℕ → ℕ → ℕ → ℕ
unfolding from_le
le_at buf off w = from_le (take w (drop off buf))

unfoldable pub be_at : List ℕ → ℕ → ℕ → ℕ
unfolding from_be
be_at buf off w = from_be 0 (take w (drop off buf))

pub length-put_le : (w v : ℕ) → length (put_le w v) ≡ w
unfolding put_le
length-put_le zero v = refl
length-put_le (suc w) v = ap suc (length-put_le w (v / 256))

pub length-put_be : (w v : ℕ) → length (put_be w v) ≡ w
unfolding put_be
length-put_be zero v = refl
length-put_be (suc w) v =
    omega (arith, length-append (put_be w (v / 256)) ((v % 256) ∷ []), length-put_be w (v / 256))

pub put_be-IsByte : (w v : ℕ) → All IsByte (put_be w v)
unfolding put_be
put_be-IsByte zero v = tt
put_be-IsByte (suc w) v =
    All-append IsByte (put_be w (v / 256)) _ (put_be-IsByte w (v / 256)) (omega arith)

pub put_le-IsByte : (w v : ℕ) → All IsByte (put_le w v)
unfolding put_le
put_le-IsByte zero v = tt
put_le-IsByte (suc w) v = (omega arith, put_le-IsByte w (v / 256))

pub from_le-put_le : (w v : ℕ) → v < 256 ^ w → from_le (put_le w v) ≡ v
unfolding put_le from_le
from_le-put_le zero v h = omega arith
from_le-put_le (suc w) v h =
    omega (arith, from_le-put_le w (v / 256) (omega (arith, pow-suc 256 w)))

from_be_snoc : (bs : List ℕ) (acc b : ℕ) → from_be acc (bs ++ b ∷ []) ≡ from_be acc bs * 256 + b
unfolding from_be
from_be_snoc [] acc b = refl
from_be_snoc (c ∷ bs) acc b = from_be_snoc bs (acc * 256 + c) b

pub from_be-put_be : (w v : ℕ) → v < 256 ^ w → from_be 0 (put_be w v) ≡ v
unfolding put_be
from_be-put_be zero v h = unfold from_be in omega arith
from_be-put_be (suc w) v h = omega (
  arith,
  from_be_snoc (put_be w (v / 256)) 0 (v % 256),
  from_be-put_be w (v / 256) (omega (arith, pow-suc 256 w)),
)

-- Byte strings of one length are ordered as the numbers that they stand for.
pub from_be-lt :
    (xs ys : List ℕ) (a b : ℕ)
    → All IsByte xs
    → All IsByte ys
    → length xs ≡ length ys
    → a < b
    → from_be a xs < from_be b ys
unfolding from_be
from_be-lt [] [] a b hx hy e h = h
from_be-lt [] (y ∷ ys) a b hx hy e h = absurd (omega arith)
from_be-lt (x ∷ xs) [] a b hx hy e h = absurd (omega arith)
from_be-lt (x ∷ xs) (y ∷ ys) a b hx hy e h =
    from_be-lt xs ys (a * 256 + x) (b * 256 + y) hx.1 hy.1 (omega arith) (omega arith)
