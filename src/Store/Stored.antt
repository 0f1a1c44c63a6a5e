-- ===== src/Store/Stored.antt =====
-- ReadAtCtx of store/handle.go over the segments of the index: a read against the bytes of the files.
use place.Common.{
  ℕ, zero, suc, ◌+◌, ◌≤◌, ◌<◌, ◌≡◌, refl, sym, ap, ◌∙◌, false, List, [], ◌∷◌, Option, none, some,
  arith, All, All-map, ltb_of_le, ◌==◌, length, take, drop,
}
use place.Fragment.{Fragment, tier_mem}
use place.Fragment.Shadow.{source_of}
use place.Fragment.Owner.{newest}
use place.Segment.{Segment}
use place.Segment
use place.SegmentSet
use place.Coalescer.{ok, InodeBuf}
use place.Handle.{mem_fragments, read_at_ctx}
use place.Handle.Buffered.{asked}
use place.Handle.Bytes.{span, byte_at, Readable, read_at_ctx-span}
use place.Kv.{Pebble}
use place.Index.{Index, set_for}
use place.Index
use place.Store.Read.{read_disk}

-- The byte at a position, and 0 past the end.
abbrev nth_byte : List ℕ → ℕ → ℕ
nth_byte [] i = 0
nth_byte (x ∷ xs) zero = x
nth_byte (x ∷ xs) (suc i) = nth_byte xs i

span-tail :
    (x : ℕ) (xs : List ℕ) (s t n : ℕ)
    → t ≡ suc s
    → span (nth_byte (x ∷ xs)) t n ≡ span (nth_byte xs) s n
unfolding span
span-tail x xs s t zero e = refl
span-tail x xs s t (suc n) e =
    ap (λ z. nth_byte (x ∷ xs) z ∷ span (nth_byte (x ∷ xs)) (t + 1) n) e
    ∙ ap (λ l. nth_byte xs s ∷ l) (span-tail x xs (s + 1) (t + 1) n (omega arith))

-- The bytes that are read are those at their positions.
take-drop-span :
    (o n : ℕ) (xs : List ℕ) → o + n ≤ length xs → take n (drop o xs) ≡ span (nth_byte xs) o n
unfolding span
take-drop-span zero zero xs h = refl
take-drop-span zero (suc n) [] h = absurd (omega arith)
take-drop-span zero (suc n) (x ∷ xs) h =
    ap (λ l. x ∷ l) (take-drop-span zero n xs (omega arith) ∙ sym (span-tail x xs 0 1 n refl))
take-drop-span (suc o) zero [] h = refl
take-drop-span (suc o) (suc n) [] h = absurd (omega arith)
take-drop-span (suc o) n (x ∷ xs) h =
    take-drop-span o n xs (omega arith) ∙ sym (span-tail x xs o (suc o) n refl)

abbrev byte_of : Option Segment → ℕ → ℕ
byte_of none = λ i. 0
byte_of (some seg) = nth_byte seg.bytes

module _ {p : Pebble} (idx : Index p) where
  -- The byte at an address of the two tiers' segments.
  abbrev pub cell : ℕ → ℕ → ℕ → ℕ
  cell tier segment_id = byte_of (SegmentSet.get (set_for idx tier) segment_id)

  -- A fragment of a byte or more that lies in an open segment of its tier.
  abbrev pub InSegment : Fragment → Type 0
  InSegment f =
      (0 < f.length)
      × ((f.tier == tier_mem) ≡ false)
      × ((seg : Segment) × (SegmentSet.get (set_for idx f.tier) f.segment_id ≡ some seg)
          × (f.segment_offset + f.length ≤ length seg.bytes))

  InSegment-Readable :
      (buf : Option InodeBuf) (f : Fragment) → InSegment f → Readable (read_disk idx) buf cell f
  unfolding Index.read_at Segment.read_at
  InSegment-Readable buf f h a n part =
      let (seg, there, fits) = h.2 in
      rw
        (
          there,
          Index.read_at,
          ltb_of_le n n (omega arith),
          Segment.read_at,
          ltb_of_le (length seg.bytes) (f.segment_offset + a + n) (omega (arith, fits, part)),
        )
        (ap ok (take-drop-span (f.segment_offset + a) n seg.bytes (omega (arith, fits, part))))

  -- A read of a file of which no buffered extent reaches into the range gives its bytes from the offset
  -- on, as many as were asked for or up to the end of the file: each is the byte that the segment of
  -- the newest fragment over it has at the byte's own place in the payload, and 0 where no fragment is.
  -- Every fragment has a byte at least and lies in an open segment of its tier, which is not memory.
  pub read_at_ctx-bytes :
      (buf : Option InodeBuf) (disk : List Fragment) (size off : ℕ) (dest : List ℕ)
      → All InSegment disk
      → mem_fragments buf off (asked size (length dest) off) ≡ []
      → read_at_ctx (read_disk idx) buf disk size dest off
        ≡ ok (
            span
              (λ x. byte_at cell (source_of (newest disk x) x))
              off
              (asked size (length dest) off))
  read_at_ctx-bytes buf disk size off dest held none_buffered =
      read_at_ctx-span (read_disk idx) buf cell disk size off dest
        (All-map disk (λ (f : Fragment) (h : InSegment f). (h.0, h.1, InSegment-Readable buf f h))
          held)
        none_buffered
