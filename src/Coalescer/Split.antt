-- ===== src/Coalescer/Split.antt =====
-- Write's loop: the data in stripe-bounded chunks, and the batch's counts.
use place.Common.{
  ℕ, zero, suc, ◌+◌, ◌*◌, ◌/◌, ◌≤◌, ◌<◌, ◌≡◌, refl, sym, ap, ◌∙◌, List, [], ◌∷◌, ◌++◌, some, arith,
  length, take, drop, length-drop, length-take_of_le,
}
use place.Common.Int.{pos, ◌+ℤ◌, int_laws, +ℤ_parts, eq_of_parts}
use place.Coalescer.{BufExtent, BufBatch, next_seq, max_of, take_len, push_extent, write_loop}
use native.Mathlib.Nat.{div-add-mod, mod-lt}
use mathlib.Core.List.{append_assoc, append-nil}

-- The extents hold `rem` from `off` on, without gaps, each non-empty and in one stripe, under the
-- counter's next values, which end at `gen'`.
abbrev pub Chunks : ℕ → List BufExtent → ℕ → List ℕ → ℕ → ℕ → Type 0
Chunks stripe_size [] off rem gen gen' = (rem ≡ []) × (gen ≡ gen')
Chunks stripe_size (e ∷ es) off rem gen gen' =
    (e.off ≡ off)
    × (e.seq ≡ next_seq gen)
    × (0 < length e.bytes)
    × (off + length e.bytes ≤ (off / stripe_size + 1) * stripe_size)
    × (e.bytes ≡ take (length e.bytes) rem)
    × Chunks stripe_size es (off + length e.bytes) (drop (length e.bytes) rem) (next_seq gen) gen'

below_stripe_end :
    (stripe_size off : ℕ) → 0 < stripe_size → off < (off / stripe_size + 1) * stripe_size
below_stripe_end stripe_size off s =
    omega (arith, div-add-mod off stripe_size, mod-lt off {m = stripe_size} s)

take_len_bounds :
    (stripe_size off rem : ℕ)
    → 0 < stripe_size
    → 0 < rem
    → (0 < take_len stripe_size off rem)
      × (take_len stripe_size off rem ≤ rem)
      × (off + take_len stripe_size off rem ≤ (off / stripe_size + 1) * stripe_size)
unfolding take_len
take_len_bounds stripe_size off rem s r = ground (arith, below_stripe_end stripe_size off s)

-- The furthest end after `rem` was written at `off`.
abbrev pub grown : ℕ → ℕ → List ℕ → ℕ
grown m off [] = m
grown m off (x ∷ rem) = max_of m (off + length (x ∷ rem))

grown_rest : (m off : ℕ) (l : List ℕ) → grown (max_of m off) off l ≡ max_of m (off + length l)
grown_rest m off [] = ground arith
grown_rest m off (y ∷ l) = ground arith

grown-drop :
    (m off n : ℕ) (rem : List ℕ)
    → 0 < n
    → n ≤ length rem
    → grown (max_of m (off + n)) (off + n) (drop n rem) ≡ grown m off rem
grown-drop m off n [] h k = absurd (omega arith)
grown-drop m off n (x ∷ rem) h k =
    grown_rest m (off + n) (drop n (x ∷ rem))
    ∙ ap (max_of m) (omega (arith, length-drop n (x ∷ rem)))

-- What the loop leaves: the old extents and then the chunks of `rem`, counted in full.
pub record Wrote (stripe_size gen : ℕ) (b : BufBatch) (off : ℕ) (rem : List ℕ) (b' : BufBatch)
    (gen' : ℕ) (es : List BufExtent) : Type 0 where
  pub extended : b'.extents ≡ b.extents ++ es
  pub chunks : Chunks stripe_size es off rem gen gen'
  pub counted : b'.bytes ≡ b.bytes +ℤ pos (length rem)
  pub furthest : b'.max_end ≡ grown b.max_end off rem

Wrote-step :
    (stripe_size gen n : ℕ) (b : BufBatch) (off : ℕ) (rem : List ℕ) (b' : BufBatch) (gen' : ℕ)
    (es : List BufExtent)
    → 0 < n
    → n ≤ length rem
    → off + n ≤ (off / stripe_size + 1) * stripe_size
    → Wrote stripe_size
        (next_seq gen)
        (push_extent b (next_seq gen) off (take n rem))
        (off + n)
        (drop n rem)
        b'
        gen'
        es
    → Wrote stripe_size gen b off rem b' gen'
        (record { seq = next_seq gen; off = off; bytes = take n rem } ∷ es)
unfolding push_extent
Wrote-step stripe_size gen n b off rem b' gen' es pos_n fits bounded w = record {
  extended = w.extended ∙ append_assoc b.extents _ es;
  chunks = rw (len) (refl, refl, pos_n, bounded, refl, w.chunks);
  counted = w.counted ∙ omega (arith, +ℤ_parts, eq_of_parts, len, length-drop n rem);
  furthest = w.furthest ∙ rw len (grown-drop b.max_end off n rem pos_n fits);
}
  where
    len : length (take n rem) ≡ n
    len = length-take_of_le n rem fits

-- Write's loop ends, and leaves the old extents followed by the written bytes in order, in non-empty
-- pieces that each lie in one stripe and carry the next values of the counter; the batch counts the
-- bytes and the furthest end. A stripe has a byte at least, and the fuel is the length of the data.
pub write_loop_lem :
    (fuel stripe_size gen : ℕ) (b : BufBatch) (off : ℕ) (rem : List ℕ)
    → 0 < stripe_size
    → length rem ≤ fuel
    → (b' : BufBatch) × (gen' : ℕ) × (es : List BufExtent) × (write_loop fuel stripe_size gen b off
          rem
        ≡ some (b', gen'))
      × Wrote stripe_size gen b off rem b' gen' es
unfolding write_loop
write_loop_lem fuel stripe_size gen b off [] s h = (
  b,
  gen,
  [],
  refl,
  record {
    extended = sym (append-nil b.extents);
    chunks = (refl, refl);
    counted = omega int_laws;
    furthest = refl;
  },
)
write_loop_lem zero stripe_size gen b off (x ∷ rem) s h = absurd (omega arith)
write_loop_lem (suc fuel) stripe_size gen b off (x ∷ rem) s h =
    let n = take_len stripe_size off (length (x ∷ rem)) in
    let (some_taken, fits, bounded) =
      take_len_bounds stripe_size off (length (x ∷ rem)) s (omega arith) in
    let (b', gen', es, e, w) =
      write_loop_lem fuel stripe_size (next_seq gen)
        (push_extent b (next_seq gen) off (take n (x ∷ rem))) (off + n) (drop n (x ∷ rem)) s
        (omega (arith, length-drop n (x ∷ rem))) in
    (
      b',
      gen',
      record { seq = next_seq gen; off = off; bytes = take n (x ∷ rem) } ∷ es,
      e,
      Wrote-step stripe_size gen n b off (x ∷ rem) b' gen' es some_taken fits bounded w,
    )
