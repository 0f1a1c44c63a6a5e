-- ===== src/Common/Int.antt =====
-- Signed integers, for the counts that the code lets fall below zero.
use Prim.Native.Nat.{ℕ, suc, ◌+◌, ◌-◌}
use mathlib.Core.Path.{◌≡◌, refl}
use native.Mathlib.Omega.{arith}
use place.Common.Tests.{leb, if◌then◌else◌}

-- `negsuc n` is -(n + 1).
pub data ℤ : Type 0 where
  pos : ℕ → ℤ
  negsuc : ℕ → ℤ

abbrev pub pos_part : ℤ → ℕ
pos_part (pos n) = n
pos_part (negsuc n) = 0

abbrev pub neg_part : ℤ → ℕ
neg_part (pos n) = 0
neg_part (negsuc n) = suc n

-- a - b, as an integer.
abbrev pub sub_ℕ : ℕ → ℕ → ℤ
sub_ℕ a b = if leb b a then pos (a - b) else negsuc (b - a - 1)

infixl 65 ◌+ℤ◌ ◌-ℤ◌
unfoldable pub ◌+ℤ◌ : ℤ → ℤ → ℤ
a +ℤ b = sub_ℕ (pos_part a + pos_part b) (neg_part a + neg_part b)

unfoldable pub ◌-ℤ◌ : ℤ → ℤ → ℤ
a -ℤ b = sub_ℕ (pos_part a + neg_part b) (neg_part a + pos_part b)

pub +ℤ_parts :
    (a b : ℤ)
    → pos_part (a +ℤ b) + neg_part a + neg_part b ≡ neg_part (a +ℤ b) + pos_part a + pos_part b
unfolding ◌+ℤ◌
+ℤ_parts a b = ground arith

pub -ℤ_parts :
    (a b : ℤ)
    → pos_part (a -ℤ b) + neg_part a + pos_part b ≡ neg_part (a -ℤ b) + pos_part a + neg_part b
unfolding ◌-ℤ◌
-ℤ_parts a b = ground arith

pub eq_of_parts : (a b : ℤ) → pos_part a + neg_part b ≡ pos_part b + neg_part a → a ≡ b
eq_of_parts a b h = ground arith

pub parts_of_eq : (a b : ℤ) → a ≡ b → pos_part a + neg_part b ≡ pos_part b + neg_part a
parts_of_eq a b e = rw e refl

pub ruleset int_laws = (arith, +ℤ_parts, -ℤ_parts, eq_of_parts)

-- An equation of two sums holds with the same term before both.
pub +ℤ-left : (x y z w u : ℤ) → y +ℤ z ≡ w +ℤ u → x +ℤ y +ℤ z ≡ x +ℤ w +ℤ u
+ℤ-left x y z w u e = omega (int_laws, parts_of_eq (y +ℤ z) (w +ℤ u) e)

pub +ℤ-left_end : (x y z w : ℤ) → y +ℤ z ≡ w → x +ℤ y +ℤ z ≡ x +ℤ w
+ℤ-left_end x y z w e = omega (int_laws, parts_of_eq (y +ℤ z) w e)

-- A total kept level: what comes off one part comes off the whole.
pub level :
    (held total before after total' d : ℤ)
    → held ≡ total
    → total' +ℤ before ≡ total +ℤ after
    → after ≡ before +ℤ d
    → held +ℤ d ≡ total'
level held total before after total' d e f g = omega (
  int_laws,
  parts_of_eq held total e,
  parts_of_eq (total' +ℤ before) (total +ℤ after) f,
  parts_of_eq after (before +ℤ d) g,
)

pub level_down :
    (held total before after total' d : ℤ)
    → held ≡ total
    → total' +ℤ before ≡ total +ℤ after
    → after +ℤ d ≡ before
    → held -ℤ d ≡ total'
level_down held total before after total' d e f g = omega (
  int_laws,
  parts_of_eq held total e,
  parts_of_eq (total' +ℤ before) (total +ℤ after) f,
  parts_of_eq (after +ℤ d) before g,
)
