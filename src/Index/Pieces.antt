-- ===== src/Index/Pieces.antt =====
-- The loop of AppendToWithTxCtx: the payload in extents that lie in one stripe each.
use place.Common.{
  ℕ, zero, suc, ◌+◌, ◌-◌, ◌*◌, ◌^◌, ◌≤◌, ◌<◌, ◌≡◌, refl, ap, ◌∙◌, List, [], ◌∷◌, ◌++◌, some, arith,
  length, take, drop, length-drop, length-take_of_le, ltb, if◌then◌else◌,
}
use place.Kv.{Pebble}
use place.Index.{Index, stripe_of, bump_seq}
use place.Index.Append.{AppendExtent, stripe_end, split_payload}
use native.Mathlib.Nat.{div-add-mod, mod-lt, mod-eq_of_lt, div-lt_iff_lt-mul}
use mathlib.Core.List.{append_assoc, append-nil}

module _ {p : Pebble} where
  -- The extents hold `rem` from `off` on, without gaps, each non-empty, in one stripe and of `tier`,
  -- under the index's next sequence numbers, which end at those of `idx'`.
  abbrev pub Pieces : Index p → List AppendExtent → ℕ → List ℕ → ℕ → Index p → Type 0
  Pieces idx [] off rem tier idx' = (rem ≡ []) × (idx ≡ idx')
  Pieces idx (e ∷ es) off rem tier idx' =
      (e.off ≡ off)
      × (e.seq ≡ (bump_seq idx).seq_gen)
      × (e.tier ≡ tier)
      × (0 < length e.bytes)
      × (off + length e.bytes ≤ stripe_end idx.stripe_size off)
      × (e.bytes ≡ take (length e.bytes) rem)
      × Pieces (bump_seq idx) es (off + length e.bytes) (drop (length e.bytes) rem) tier idx'

-- An offset whose stripe has a uint32 number lies below that stripe's end.
pub below-stripe_end :
    (stripe_size off : ℕ)
    → 0 < stripe_size
    → off < 2 ^ 32 * stripe_size
    → off < stripe_end stripe_size off
unfolding stripe_end stripe_of
below-stripe_end stripe_size off s fits =
    rw (mod-eq_of_lt ((div-lt_iff_lt-mul {x = off} {y = 2 ^ 32} s).1 fits))
      (omega (arith, div-add-mod off stripe_size, mod-lt off {m = stripe_size} s))

abbrev piece_len : ℕ → ℕ → ℕ → ℕ
piece_len end off len = if ltb end (off + len) then end - off else len

piece_len_bounds :
    (end off len : ℕ)
    → off < end
    → 0 < len
    → (0 < piece_len end off len)
      × (piece_len end off len ≤ len)
      × (off + piece_len end off len ≤ end)
piece_len_bounds end off len h k = ground arith

module _ {p : Pebble} where
  Pieces-step :
      (idx idx' : Index p) (n off : ℕ) (rem : List ℕ) (tier : ℕ) (es : List AppendExtent)
      → 0 < n
      → n ≤ length rem
      → off + n ≤ stripe_end idx.stripe_size off
      → Pieces (bump_seq idx) es (off + n) (drop n rem) tier idx'
      → Pieces idx
          (record { seq = (bump_seq idx).seq_gen; off = off; bytes = take n rem; tier = tier } ∷ es)
          off
          rem
          tier
          idx'
  Pieces-step idx idx' n off rem tier es some_taken within bounded rest =
      rw (length-take_of_le n rem within) (refl, refl, refl, some_taken, bounded, refl, rest)

  -- AppendToWithTxCtx's loop ends for a payload that ends within the 2^32 stripes of a file: its
  -- extents hold the payload from the offset on in order, in non-empty pieces that each end within the
  -- stripe they start in, of the tier asked for and under the next sequence numbers. A stripe has a
  -- byte at least, and the fuel is the length of the payload.
  pub split_payload_lem :
      (fuel : ℕ) (idx : Index p) (off : ℕ) (rem : List ℕ) (tier : ℕ) (extents : List AppendExtent)
      → 0 < idx.stripe_size
      → length rem ≤ fuel
      → off + length rem ≤ 2 ^ 32 * idx.stripe_size
      → (es : List AppendExtent) × (idx' : Index p) × (split_payload fuel idx off rem tier extents
          ≡ some (idx', extents ++ es))
        × Pieces idx es off rem tier idx'
  unfolding split_payload
  split_payload_lem fuel idx off [] tier extents s h fits =
      ([], idx, rw (append-nil extents) refl, (refl, refl))
  split_payload_lem zero idx off (x ∷ rem) tier extents s h fits = absurd (omega arith)
  split_payload_lem (suc fuel) idx off (x ∷ rem) tier extents s h fits =
      let n = piece_len (stripe_end idx.stripe_size off) off (length (x ∷ rem)) in
      let (some_taken, within, bounded) =
        piece_len_bounds (stripe_end idx.stripe_size off) off (length (x ∷ rem))
          (below-stripe_end idx.stripe_size off s (omega (arith, fits))) (omega arith) in
      let left : length (drop n (x ∷ rem)) + n ≡ length (x ∷ rem) =
        omega (arith, length-drop n (x ∷ rem), within) in
      let (es, idx', e, rest) =
        split_payload_lem fuel (bump_seq idx) (off + n) (drop n (x ∷ rem)) tier
          (extents
            ++ record {
              seq = (bump_seq idx).seq_gen;
              off = off;
              bytes = take n (x ∷ rem);
              tier = tier;
            }
              ∷ [])
          s (omega (arith, left, some_taken)) (omega (arith, left, fits)) in
      (
        record { seq = (bump_seq idx).seq_gen; off = off; bytes = take n (x ∷ rem); tier = tier }
            ∷ es,
        idx',
        e ∙ ap (λ l. some (idx', l)) (append_assoc extents _ es),
        Pieces-step idx idx' n off (x ∷ rem) tier es some_taken within bounded rest,
      )
