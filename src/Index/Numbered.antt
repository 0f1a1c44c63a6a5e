-- ===== src/Index/Numbered.antt =====
-- The extents that AppendToWithTxCtx cuts a payload into: their count, lengths and sequence numbers.
use place.Common.{
  ℕ, ◌+◌, ◌^◌, ◌≤◌, ◌<◌, ◌≡◌, sym, ap, List, [], ◌∷◌, arith, All, All-map, length, drop,
  length-drop, length-take-le,
}
use place.Kv.{Pebble}
use place.Index.{Index, bump_seq}
use place.Index.Append.{AppendExtent}
use place.Index.Pieces.{Pieces}
use place.Index.Staging.{Ready, along}
use place.Index.Appended.{Distinct}

-- How many extents a payload gives, and how long and under which numbers they are.
abbrev pub Numbered : ℕ → List AppendExtent → List ℕ → Type 0
Numbered gen es rem =
    (length es ≤ length rem)
    × All (λ d. length d.bytes < 2 ^ 32) es
    × All (λ d. gen < d.seq) es
    × Distinct es

module _ {p : Pebble} where
  pub Pieces-Numbered :
      (es : List AppendExtent) (idx idx' : Index p) (off : ℕ) (rem : List ℕ) (tier : ℕ)
      → Pieces idx es off rem tier idx'
      → length rem < 2 ^ 32
      → idx.seq_gen + length rem < 2 ^ 64
      → Numbered idx.seq_gen es rem
  Pieces-Numbered [] idx idx' off rem tier h short room = (omega arith, tt, tt, tt)
  Pieces-Numbered (e ∷ es) idx idx' off rem tier (at, seq, tiers, some_taken, bounded, bytes, rest)
        short room =
      let taken : length e.bytes ≤ length rem =
        omega (arith, ap (λ l. length l) bytes, length-take-le (length e.bytes) rem) in
      let next : (bump_seq idx).seq_gen ≡ idx.seq_gen + 1 = omega arith in
      let (few, small, above, distinct) =
        Pieces-Numbered es (bump_seq idx) idx' (off + length e.bytes) (drop (length e.bytes) rem)
          tier rest (omega (arith, length-drop (length e.bytes) rem))
          (omega (arith, length-drop (length e.bytes) rem, next)) in
      (
        omega (arith, few, length-drop (length e.bytes) rem, taken, some_taken),
        (omega arith, small),
        (omega (arith, seq, next), All-map es (λ d h. omega (arith, h, next)) above),
        (
          omega (arith, seq, next),
          All-map es (λ d h. ground (arith, h, next, seq)) above,
          distinct,
        ),
      )

  pub Pieces-db :
      (es : List AppendExtent) (idx idx' : Index p) (off : ℕ) (rem : List ℕ) (tier : ℕ)
      → Pieces idx es off rem tier idx'
      → idx'.db ≡ idx.db
  Pieces-db [] idx idx' off rem tier h = ap (λ (z : Index p). z.db) (sym h.1)
  Pieces-db (e ∷ es) idx idx' off rem tier h =
      Pieces-db es (bump_seq idx) idx' (off + length e.bytes) (drop (length e.bytes) rem) tier h.6

  pub Pieces-Ready :
      (es : List AppendExtent) (k : ℕ) (idx idx' : Index p) (off : ℕ) (rem : List ℕ) (tier : ℕ)
      → Pieces idx es off rem tier idx'
      → Ready k idx
      → Ready k idx'
  Pieces-Ready [] k idx idx' off rem tier h r = along (Ready k) h.1 r
  Pieces-Ready (e ∷ es) k idx idx' off rem tier h r =
      Pieces-Ready es k (bump_seq idx) idx' (off + length e.bytes) (drop (length e.bytes) rem) tier
        h.6
        (record {
          hot_sound = r.hot_sound;
          cold_sound = r.cold_sound;
          hot_room = r.hot_room;
          cold_room = r.cold_room;
        })

  pub Ready-fewer : (k n : ℕ) (idx : Index p) → k ≤ n → Ready n idx → Ready k idx
  Ready-fewer k n idx h r = record {
    hot_sound = r.hot_sound;
    cold_sound = r.cold_sound;
    hot_room = omega (arith, r.hot_room);
    cold_room = omega (arith, r.cold_room);
  }
