-- ===== src/Mover/Backoff.antt =====
-- How the sleep grows.
use place.Common.{
  ℕ, zero, suc, ◌*◌, ◌^◌, ◌≤◌, ◌<◌, ◌≡◌, sym, ap, ◌∙◌, arith, ==_zero, Bool-cases, inl, inr, ltb,
  if◌then◌else◌,
}
use place.Mover.{double, backoff}
use native.Mathlib.Nat.{pow-succ', mul_assoc}

-- The smaller of two numbers.
abbrev pub at_most : ℕ → ℕ → ℕ
at_most max d = if ltb max d then max else d

doubled : (d n : ℕ) → d * 2 * 2 ^ n ≡ d * 2 ^ suc n
doubled d n = mul_assoc d 2 (2 ^ n) ∙ ap (d *◌) (sym (pow-succ' 2 n))

no_less : (d n : ℕ) → d ≤ d * 2 ^ n
no_less d zero = omega arith
no_less d (suc n) = omega (arith, no_less d n, doubled d n, no_less (d * 2) n)

double_capped :
    (consec max d : ℕ) → at_most max (double consec max d) ≡ at_most max (d * 2 ^ consec)
unfolding double
double_capped zero max d = ground arith
double_capped (suc consec) max d = elim (Bool-cases (ltb d max)) [
  | inl below ↦ rw below (double_capped consec max (d * 2) ∙ ap (at_most max) (doubled d consec))
  | inr capped ↦ rw capped (ground (arith, no_less d (suc consec), capped))
]

-- After `consec` failed passes in a row the mover sleeps for the tick doubled that often, or for the
-- longest sleep if that is less.
pub backoff-doubles :
    (base max consec : ℕ) → 0 < consec → backoff base max consec ≡ at_most max (base * 2 ^ consec)
unfolding backoff
backoff-doubles base max consec some_failed =
    rw (==_zero consec some_failed) (double_capped consec max base)
