-- ===== src/Store/Examples/Reads.antt =====
-- A read over two fragments in one segment, of which the newer hides the older one's end, and a hole.
use place.Common.{ℕ, ◌≡◌, refl, List, [], ◌∷◌, none, arith, All}
use place.Fragment.{Fragment}
use place.Fragment.Cover.{address}
use place.Fragment.Shadow.{source_of}
use place.Fragment.Owner.{newest}
use place.SegmentSet.{get, get_segment}
use place.Coalescer.{ok}
use place.Handle.{mem_fragments, read_at_ctx}
use place.Handle.Bytes.{span, byte_at}
use place.Kv.Memory.{memory, empty}
use place.Index.{Index}
use place.Store.Read.{read_disk}
use place.Store.Stored.{cell, InSegment, read_at_ctx-bytes}
use place.Store.Examples.{no_segments}

abbrev fragment_of : ℕ → ℕ → ℕ → ℕ → Fragment
fragment_of seq off len at = record {
  seq = seq;
  logical_off = off;
  length = len;
  tier = 1;
  segment_id = 1;
  segment_offset = at;
}

abbrev on_disk : List Fragment
on_disk = fragment_of 1 0 4 1 ∷ fragment_of 2 2 3 5 ∷ []

abbrev index : Index memory
index = record {
  stripe_size = 4096;
  db = empty;
  hot = record (no_segments 1) {
    segments = record { id = 1; bytes = 9 ∷ 11 ∷ 12 ∷ 13 ∷ 14 ∷ 21 ∷ 22 ∷ 23 ∷ []; size = 8 } ∷ [];
  };
  cold = no_segments 2;
  seq_gen = 2;
}

abbrev seven : List ℕ
seven = 0 ∷ 0 ∷ 0 ∷ 0 ∷ 0 ∷ 0 ∷ 0 ∷ []

held : All (InSegment index) on_disk
unfolding get get_segment
held =
    ((omega arith, refl, (_, refl, omega arith)), ((omega arith, refl, (_, refl, omega arith)), tt))

read_at_ctx-bytes_example :
    read_at_ctx (read_disk index) none on_disk 8 seven 1
    ≡ ok (span (λ x. byte_at (cell index) (source_of (newest on_disk x) x)) 1 7)
unfolding mem_fragments
read_at_ctx-bytes_example = read_at_ctx-bytes index none on_disk 8 1 seven held refl

seven_bytes :
    span (λ x. byte_at (cell index) (source_of (newest on_disk x) x)) 1 7
    ≡ 12 ∷ 21 ∷ 22 ∷ 23 ∷ 0 ∷ 0 ∷ 0 ∷ []
unfolding span newest address get get_segment
seven_bytes = refl
