-- ===== src/Handle/Buffered.antt =====
-- Reads of a file whose bytes are still in the write-back buffer.
use place.Common.{
  drop_past, ℕ, ◌+◌, ◌-◌, ◌≤◌, ◌<◌, ◌≡◌, refl, ap, ◌∙◌, List, [], ◌∷◌, none, some, arith, ltb,
  ==_self, ltb_of_le, leb_of_lt, ==_zero, if◌then◌else◌, length, take, length-take_of_le,
}
use place.Fragment.{Fragment, Locator, ReadSlice, read_slice, tier_mem}
use mathlib.Core.List.{append-nil}
use native.Mathlib.Nat.{zero-add}
use place.Coalescer.{
  Error, Result, ok, err, InodeBuf, BufExtent, extents_of, fragments_for, copy_out, copy_extent,
  find_extent, collect,
}
use place.Handle.{◌>>=◌, mem_fragments, copy_out_of, slice_bytes, read_plan, read_at_ctx, fill}
use place.Handle.Slice.{plan_read_one}

-- The buffer of an inode that holds one write, none of it on its way to disk.
pub record Holds (buf : InodeBuf) (ext : BufExtent) : Type 0 where
  pub only : extents_of buf.current ≡ ext ∷ []
  pub settled : extents_of buf.flushing ≡ []

abbrev mem_fragment : BufExtent → Fragment
mem_fragment ext = record {
  seq = ext.seq;
  logical_off = ext.off;
  length = length ext.bytes;
  tier = tier_mem;
  segment_id = 0;
  segment_offset = ext.seq;
}

-- The bytes a read asks for once it is cut at the end of the file.
abbrev pub asked : ℕ → ℕ → ℕ → ℕ
asked size len off = if ltb size (off + len) then size - off else len

module _ (read_segment : Locator → Result (List ℕ)) (buf : InodeBuf) (ext : BufExtent)
    (holds : Holds buf ext) (size off : ℕ) (p : List ℕ) (some_asked : 0 < length p)
    (below_size : off < size) (from_start : ext.off ≤ off)
    (covered : size ≤ ext.off + length ext.bytes) where
  abbrev n : ℕ
  n = asked size (length p) off

  n_bounds : (0 < n) × (off + n ≤ size) × (n ≤ length p)
  n_bounds = ground arith

  mem_fragments_one : mem_fragments (some buf) off n ≡ mem_fragment ext ∷ []
  unfolding mem_fragments fragments_for collect
  mem_fragments_one = rw (
    ==_zero n n_bounds.0,
    holds.only,
    holds.settled,
    leb_of_lt (ext.off + length ext.bytes) off (omega arith),
    leb_of_lt (off + n) ext.off (omega (arith, n_bounds)),
  )

  abbrev slice : ReadSlice
  slice = read_slice (mem_fragment ext) off (off + n)

  read_one :
      read_at_ctx read_segment (some buf) [] size p off
      ≡ read_plan read_segment (some buf) off (slice ∷ []) (take n p)
  unfolding read_at_ctx
  read_one = rw (
    ==_zero (length p) some_asked,
    leb_of_lt size off below_size,
    mem_fragments_one,
    plan_read_one (mem_fragment ext) off n from_start n_bounds.0 (omega (arith, n_bounds)),
  )

  find_one :
      (loc : Locator)
      → copy_out buf loc off ≡ elim (find_extent loc.offset (ext ∷ [])) [
        | some e ↦ copy_extent e loc off
        | none ↦ err Error.extent_gone
      ]
  unfolding copy_out
  find_one loc =
      ap
        (λ xs. elim (find_extent loc.offset xs) [
          | some e ↦ copy_extent e loc off
          | none ↦ elim (find_extent loc.offset (extents_of buf.flushing)) [
            | some e ↦ copy_extent e loc off
            | none ↦ err Error.extent_gone
          ]
        ])
        holds.only
      ∙ ap
          (λ xs. elim (find_extent loc.offset (ext ∷ [])) [
            | some e ↦ copy_extent e loc off
            | none ↦ elim (find_extent loc.offset xs) [
              | some e ↦ copy_extent e loc off
              | none ↦ err Error.extent_gone
            ]
          ])
          holds.settled

  missed : ext.off < off → copy_out buf slice.locator off ≡ err Error.extent_gone
  unfolding find_extent
  missed inside = find_one slice.locator ∙ ground arith

  found : off ≡ ext.off → copy_out buf slice.locator off ≡ ok (take n ext.bytes)
  unfolding find_extent copy_extent
  found e =
      find_one slice.locator
      ∙ rw
          (
            at_start,
            ==_self ext.seq,
            ltb_of_le off ext.off (omega arith),
            nothing_before,
            exact,
            ltb_of_le (length ext.bytes) (0 + n) (omega (arith, n_bounds)),
          )
          refl
    where
      exact : off + n - off ≡ n
      exact = omega arith

      at_start : ext.seq + (off - ext.off) ≡ ext.seq
      at_start = omega arith

      nothing_before : off - ext.off ≡ 0
      nothing_before = omega arith

  bytes_one : slice_bytes read_segment (some buf) slice ≡ copy_out buf slice.locator off
  unfolding slice_bytes copy_out_of
  bytes_one = refl

fill_all :
    (n k : ℕ) (p xs : List ℕ)
    → n ≤ length p
    → n ≤ length xs
    → fill (take n p) (k - k) (take n xs) ≡ take n xs
unfolding fill
fill_all n k p xs hp hx =
    rw (start, zero-add, drop_past (length (take n xs)) (take n p) short, append-nil) refl
  where
    start : k - k ≡ 0
    start = omega arith

    short : length (take n p) ≤ length (take n xs)
    short = omega (arith, length-take_of_le n p hp, length-take_of_le n xs hx)

-- A read of a byte or more of a file that has no fragment on disk and one extent in the buffer, which
-- reaches to the end of the file or past it, fails if it starts before that end and inside the extent,
-- past its first byte.
pub read_at_ctx-inside_extent :
    (read_segment : Locator → Result (List ℕ)) (buf : InodeBuf) (ext : BufExtent) (size off : ℕ)
    (p : List ℕ)
    → Holds buf ext
    → 0 < length p
    → off < size
    → ext.off < off
    → size ≤ ext.off + length ext.bytes
    → read_at_ctx read_segment (some buf) [] size p off ≡ err Error.extent_gone
unfolding read_plan
read_at_ctx-inside_extent read_segment buf ext size off p holds some_asked below inside covered =
    let from_start : ext.off ≤ off = omega arith in
    read_one read_segment buf ext holds size off p some_asked below from_start covered
    ∙ ap (λ r. r >>= λ bytes. ok (fill (take (asked size (length p) off) p) (off - off) bytes))
        (bytes_one read_segment buf ext holds size off p some_asked below from_start covered
          ∙ missed read_segment buf ext holds size off p some_asked below from_start covered inside)

-- A read that starts at the first byte of the one extent that is still buffered gives the bytes that
-- were written, up to the end of the file.
pub read_at_ctx-whole_extent :
    (read_segment : Locator → Result (List ℕ)) (buf : InodeBuf) (ext : BufExtent) (size : ℕ)
    (p : List ℕ)
    → Holds buf ext
    → 0 < length p
    → ext.off < size
    → size ≤ ext.off + length ext.bytes
    → read_at_ctx read_segment (some buf) [] size p ext.off
      ≡ ok (take (asked size (length p) ext.off) ext.bytes)
unfolding read_plan
read_at_ctx-whole_extent read_segment buf ext size p holds some_asked below covered =
    let from_start : ext.off ≤ ext.off = omega arith in
    read_one read_segment buf ext holds size ext.off p some_asked below from_start covered
    ∙ ap
        (λ r. r >>= λ bytes.
          ok (fill (take (asked size (length p) ext.off) p) (ext.off - ext.off) bytes))
        (bytes_one read_segment buf ext holds size ext.off p some_asked below from_start covered
          ∙ found read_segment buf ext holds size ext.off p some_asked below from_start covered
              refl)
    ∙ ap ok
        (fill_all (asked size (length p) ext.off) ext.off p ext.bytes (ground arith) (ground arith))
