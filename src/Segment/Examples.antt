-- ===== src/Segment/Examples.antt =====
-- Runs of a segment with two records, and the theorems at them.
use place.Common.{ℕ, suc, ◌≡◌, refl, List, [], ◌∷◌, ◌++◌, Option, some, arith, take}
use place.Segment.{
  RecordHeader, Segment, ok, done, whole, partial, append_ctx, read_at, frame, checksum_ieee,
  crc_byte, crc_bits, crc_bit, scan,
}
use place.Segment.Scan.{IsRecord, frames, written, visit_all, scan-frames}
use place.Segment.Append.{InStep, read_at-append_ctx, append_ctx-after_partial}

-- The check value of CRC-32: the bytes of "123456789".
check_value : checksum_ieee (49 ∷ 50 ∷ 51 ∷ 52 ∷ 53 ∷ 54 ∷ 55 ∷ 56 ∷ 57 ∷ []) ≡ 0xCBF43926
unfolding checksum_ieee crc_byte crc_bits crc_bit
check_value = refl

abbrev two_bytes : List ℕ
two_bytes = 7 ∷ 255 ∷ []

abbrev three_bytes : List ℕ
three_bytes = 1 ∷ 2 ∷ 3 ∷ []

abbrev first_header : RecordHeader
first_header = record { inode = 2; stripe_id = 0; seq = 1; logical_off = 0; length = 2 }

abbrev second_header : RecordHeader
second_header = record { inode = 2; stripe_id = 0; seq = 2; logical_off = 2; length = 3 }

abbrev empty_segment : Segment
empty_segment = record { id = 0; bytes = []; size = 0 }

abbrev count : RecordHeader → ℕ → ℕ → Option ℕ
count h off n = some (suc n)

first_IsRecord : IsRecord (first_header, two_bytes)
first_IsRecord = record {
  fits = record {
    inode_fits = omega arith;
    stripe_id_fits = omega arith;
    seq_fits = omega arith;
    logical_off_fits = omega arith;
    length_fits = omega arith;
  };
  sized = refl;
}

second_IsRecord : IsRecord (second_header, three_bytes)
second_IsRecord = record {
  fits = record {
    inode_fits = omega arith;
    stripe_id_fits = omega arith;
    seq_fits = omega arith;
    logical_off_fits = omega arith;
    length_fits = omega arith;
  };
  sized = refl;
}

scan-frames_example :
    scan count
      (written 0
        (frames ((first_header, two_bytes) ∷ []) ++ take 20 (frame second_header three_bytes)))
      0
    ≡ done 1 46
unfolding visit_all
scan-frames_example =
    scan-frames count 0 20 ((first_header, two_bytes) ∷ []) second_header three_bytes 0
      (first_IsRecord, tt) second_IsRecord (omega arith)

read_at-append_ctx_example :
    ((append_ctx empty_segment first_header two_bytes whole).1 ≡ ok 40)
    × (read_at (append_ctx empty_segment first_header two_bytes whole).0 40 2 ≡ ok two_bytes)
    × InStep (append_ctx empty_segment first_header two_bytes whole).0
read_at-append_ctx_example = read_at-append_ctx empty_segment first_header two_bytes refl refl

abbrev one_record : Segment
one_record = (append_ctx empty_segment first_header two_bytes whole).0

-- Five bytes of the first frame stay in the file, and the second payload starts at 45, not at 40.
append_ctx-after_partial_example :
    ((append_ctx
        (append_ctx empty_segment first_header two_bytes (partial 5)).0
        second_header
        three_bytes
        whole).1
      ≡ ok 40)
    × (read_at
          (append_ctx
            (append_ctx empty_segment first_header two_bytes (partial 5)).0
            second_header
            three_bytes
            whole).0
          45
          3
        ≡ ok three_bytes)
append_ctx-after_partial_example =
    append_ctx-after_partial empty_segment first_header second_header two_bytes three_bytes 5 refl
      refl refl (omega arith)
