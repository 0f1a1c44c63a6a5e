-- ===== src/Fuse/Metrics.antt =====
-- fuselayer/metrics.go: a row of counters for each operation. A name is its bytes, and the map is an
-- association list; the counts do not reach 2^63.
use place.Common.{
  ℕ, ◌+◌, ◌≡◌, refl, ap, ◌∙◌, Bool, true, false, List, [], ◌∷◌, Option, none, some, arith, ◌==◌,
  if◌then◌else◌,
}
use place.Common.Lex.{bytes_lt}
use place.Kv.{Bytes}
use place.Kv.Entries.{bytes_eq}
use place.Kv.Entries.Lookup.{bytes_eq_left, bytes_eq-false}
use place.Fragment.{sort_by}

pub record OpRow : Type 0 where
  pub calls : ℕ
  pub errors : ℕ
  pub duration : ℕ

abbrev pub Metrics : Type 0
Metrics = List (Bytes × OpRow)

abbrev pub new_metrics : Metrics
new_metrics = []

abbrev pub empty_row : OpRow
empty_row = record { calls = 0; errors = 0; duration = 0 }

-- One call more in a row.
unfoldable pub bump : OpRow → ℕ → Bool → OpRow
bump r d is_err = record {
  calls = r.calls + 1;
  errors = if is_err then r.errors + 1 else r.errors;
  duration = r.duration + d;
}

-- Observe, with the row that is made where the operation has none.
unfoldable pub observe : Metrics → Bytes → ℕ → Bool → Metrics
unfolding bump
observe [] op d is_err = (op, bump empty_row d is_err) ∷ []
observe ((o, r) ∷ m) op d is_err =
    if bytes_eq o op then (o, bump r d is_err) ∷ m else (o, r) ∷ observe m op d is_err

-- trackOp without its span: metrics are optional, and an errno of 0 is no error.
unfoldable pub track_op : Option Metrics → Bytes → ℕ → ℕ → Option Metrics
track_op none name d e = none
track_op (some m) name d e = some (observe m name d (if e == 0 then false else true))

pub record OpStat : Type 0 where
  pub op : Bytes
  pub row : OpRow

unfoldable pub stats : Metrics → List OpStat
stats [] = []
stats ((o, r) ∷ m) = record { op = o; row = r } ∷ stats m

abbrev pub op_before : OpStat → OpStat → Bool
op_before a b = bytes_lt a.op b.op

unfoldable pub snapshot : Metrics → List OpStat
unfolding stats
snapshot m = sort_by op_before (stats m)

-- A finished operation.
pub record Sample : Type 0 where
  pub op : Bytes
  pub duration : ℕ
  pub failed : Bool

unfoldable pub observe_all : Metrics → List Sample → Metrics
observe_all m [] = m
observe_all m (s ∷ l) = observe_all (observe m s.op s.duration s.failed) l

-- The row of an operation, or zeros.
unfoldable pub row_of : Metrics → Bytes → OpRow
row_of [] op = empty_row
row_of ((o, r) ∷ m) op = if bytes_eq o op then r else row_of m op

-- What the samples of one operation add up to, from `r` on.
unfoldable pub totals : OpRow → List Sample → Bytes → OpRow
totals r [] op = r
totals r (s ∷ l) op =
    totals
      (if bytes_eq s.op op
        then record {
          calls = r.calls + 1;
          errors = if s.failed then r.errors + 1 else r.errors;
          duration = r.duration + s.duration;
        }
        else r)
      l op

row_of-observe :
    (m : Metrics) (o : Bytes) (d : ℕ) (f : Bool) (op : Bytes)
    → row_of (observe m o d f) op ≡ (if bytes_eq o op then bump (row_of m op) d f else row_of m op)
unfolding row_of observe
row_of-observe [] o d f op = refl
row_of-observe ((o', r) ∷ m) o d f op =
    ground (arith, row_of-observe m o d f op, bytes_eq_left o' o op, bytes_eq-false o' o op)

-- After any calls of Observe the row of each operation has the number of its calls, the number of those
-- that failed, and the sum of their durations, added to what it had.
pub row_of-observe_all :
    (m : Metrics) (l : List Sample) (op : Bytes)
    → row_of (observe_all m l) op ≡ totals (row_of m op) l op
unfolding observe_all totals bump
row_of-observe_all m [] op = refl
row_of-observe_all m (s ∷ l) op =
    row_of-observe_all (observe m s.op s.duration s.failed) l op
    ∙ ap (λ r. totals r l op) (row_of-observe m s.op s.duration s.failed op)
