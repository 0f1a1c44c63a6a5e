-- ===== src/Coalescer/Examples.antt =====
-- A write across a stripe's end.
use place.Common.{ℕ, ◌≡◌, refl, List, [], ◌∷◌, some, arith}
use place.Common.Int.{pos, ◌+ℤ◌}
use place.Coalescer.{BufExtent, BufBatch, new_buf_batch, write_loop, take_len, push_extent}
use place.Coalescer.Split.{Wrote, write_loop_lem}

abbrev five_bytes : List ℕ
five_bytes = 1 ∷ 2 ∷ 3 ∷ 4 ∷ 5 ∷ []

-- Stripes of 4 bytes: the write at 2 has 2 bytes in the first and 3 in the second.
abbrev across : BufBatch
across = record {
  extents =
      record { seq = 11; off = 2; bytes = 1 ∷ 2 ∷ [] }
      ∷ record { seq = 12; off = 4; bytes = 3 ∷ 4 ∷ 5 ∷ [] }
      ∷ [];
  bytes = pos 5;
  max_end = 7;
  mtime = 0;
}

write_loop-across : write_loop 5 4 10 new_buf_batch 2 five_bytes ≡ some (across, 12)
unfolding write_loop take_len push_extent ◌+ℤ◌
write_loop-across = refl

write_loop_lem_example :
    (b' : BufBatch) × (gen' : ℕ) × (es : List BufExtent) × (write_loop 5 4 10 new_buf_batch 2
        five_bytes
      ≡ some (b', gen'))
    × Wrote 4 10 new_buf_batch 2 five_bytes b' gen' es
write_loop_lem_example =
    write_loop_lem 5 4 10 new_buf_batch 2 five_bytes (omega arith) (omega arith)
