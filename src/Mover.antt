-- ===== src/Mover.antt =====
-- mover/mover.go: the sleep after failed passes. Durations are below 2^62 ns, so doubling one that is
-- below the cap does not overflow.
pub mod Backoff
pub mod Evict
mod Pressure
mod Examples
use place.Common.{ℕ, zero, suc, ◌*◌, ◌==◌, ltb, if◌then◌else◌}

-- for i := 0; i < consec && d < max; i++
unfoldable pub double : ℕ → ℕ → ℕ → ℕ
double zero max d = d
double (suc consec) max d = let rest = double consec max (d * 2) in if ltb d max then rest else d

unfoldable pub backoff : ℕ → ℕ → ℕ → ℕ
backoff base max consec =
    let d = double consec max base in if consec == 0 then base else if ltb max d then max else d
