-- ===== src/Segment/Append.antt =====
-- AppendCtx: the payload can be read back where it says, older payloads stay, and what a failed
-- write does to the offsets that follow.
use place.Common.{
  ℕ, zero, suc, ◌+◌, ◌≤◌, ◌≡◌, refl, ap, ◌∙◌, true, List, [], ◌∷◌, ◌++◌, arith, ltb_of_le, ◌==◌,
  ==_iff, length, length-append, take, drop, take-append, length-take_of_le, length-drop,
  Bool-cases, inl, inr,
}
use place.Common.Bytes.{put_le}
use place.Segment.{
  RecordHeader, Segment, SegmentError, ok, err, Write, whole, partial, append_ctx, read_at, frame,
  body, header_size, framed_size,
}
use place.Segment.Frame.{length-frame}
use mathlib.Core.List.{append-nil}
use native.Mathlib.Nat.{zero-add, suc-add}

-- The count is the file's length.
abbrev pub InStep : Segment → Type 0
InStep s = s.size ≡ length s.bytes

take_of_append : (n : ℕ) (xs ys : List ℕ) → n ≤ length xs → take n (xs ++ ys) ≡ take n xs
take_of_append zero xs ys h = refl
take_of_append (suc n) [] ys h = absurd (omega arith)
take_of_append (suc n) (x ∷ xs) ys h = ap (◌∷◌ x) (take_of_append n xs ys (omega arith))

drop_of_append : (n : ℕ) (xs ys : List ℕ) → n ≤ length xs → drop n (xs ++ ys) ≡ drop n xs ++ ys
drop_of_append zero xs ys h = refl
drop_of_append (suc n) [] ys h = absurd (omega arith)
drop_of_append (suc n) (x ∷ xs) ys h = drop_of_append n xs ys (omega arith)

drop_shift : (xs ys : List ℕ) (n : ℕ) → drop (length xs + n) (xs ++ ys) ≡ drop n ys
drop_shift [] ys n = rw zero-add
drop_shift (x ∷ xs) ys n = rw suc-add (drop_shift xs ys n)

-- The 40 header bytes of a frame, and then the payload.
payload-frame : (h : RecordHeader) (p : List ℕ) → take (length p) (drop header_size (frame h p)) ≡ p
unfolding frame body put_le
payload-frame h p = take-append p _

read_payload :
    (t : Segment) (xs : List ℕ) (off : ℕ) (h : RecordHeader) (p : List ℕ)
    → t.bytes ≡ xs ++ frame h p
    → off ≡ length xs + header_size
    → read_at t off (length p) ≡ ok p
unfolding read_at
read_payload t xs off h p e at =
    rw (e, at, ltb_of_le (length (xs ++ frame h p)) _ room) (ap ok found)
  where
    room : length xs + header_size + length p ≤ length (xs ++ frame h p)
    room = omega (arith, length-append xs (frame h p), length-frame h p)

    found : take (length p) (drop (length xs + header_size) (xs ++ frame h p)) ≡ p
    found = ap (take (length p)) (drop_shift xs (frame h p) header_size) ∙ payload-frame h p

read_grown :
    (s t : Segment) (ys : List ℕ) (off n : ℕ)
    → t.bytes ≡ s.bytes ++ ys
    → off + n ≤ length s.bytes
    → read_at t off n ≡ read_at s off n
unfolding read_at
read_grown s t ys off n e inside =
    rw
      (
        e,
        ltb_of_le (length (s.bytes ++ ys)) (off + n) (omega (arith, length-append s.bytes ys)),
        ltb_of_le (length s.bytes) (off + n) inside,
        drop_of_append off s.bytes ys (omega arith),
        take_of_append n (drop off s.bytes) ys (omega (arith, length-drop off s.bytes)),
      )
      refl

module _ (s : Segment) (h : RecordHeader) (p : List ℕ) where
  append_ctx-whole :
      h.length ≡ length p
      → append_ctx s h p whole ≡ (
        record s { bytes = s.bytes ++ frame h p; size = s.size + length (frame h p) },
        ok (s.size + header_size),
      )
  unfolding append_ctx
  append_ctx-whole sized = rw ((==_iff h.length (length p)).1 sized)

  append_ctx-partial :
      (n : ℕ)
      → h.length ≡ length p
      → append_ctx s h p (partial n)
        ≡ (record s { bytes = s.bytes ++ take n (frame h p) }, err SegmentError.write_failed)
  unfolding append_ctx
  append_ctx-partial n sized = rw ((==_iff h.length (length p)).1 sized)

  append_ctx-bytes : (w : Write) → (ys : List ℕ) × ((append_ctx s h p w).0.bytes ≡ s.bytes ++ ys)
  unfolding append_ctx
  append_ctx-bytes w = elim (Bool-cases (h.length == length p)) [
    | inl same ↦ written_bytes w same
    | inr other ↦ ([], rw (other, append-nil))
  ]
    where
      written_bytes :
          (w : Write)
          → (h.length == length p) ≡ true
          → (ys : List ℕ) × ((append_ctx s h p w).0.bytes ≡ s.bytes ++ ys)
      written_bytes whole same = (frame h p, rw same)
      written_bytes (partial n) same = (take n (frame h p), rw same)

  -- A write that succeeds in a segment whose count is the file's length returns the offset at which
  -- the payload can be read back, and leaves the count at the file's length.
  pub read_at-append_ctx :
      InStep s
      → h.length ≡ length p
      → ((append_ctx s h p whole).1 ≡ ok (s.size + header_size))
        × (read_at (append_ctx s h p whole).0 (s.size + header_size) (length p) ≡ ok p)
        × InStep (append_ctx s h p whole).0
  read_at-append_ctx step sized = rw (append_ctx-whole sized) (
    refl,
    read_payload _ s.bytes (s.size + header_size) h p refl (omega arith),
    omega (arith, length-append s.bytes (frame h p)),
  )

  -- Whatever the write does, no byte already in the file changes.
  pub read_at-append_ctx_old :
      (w : Write) (off n : ℕ)
      → off + n ≤ length s.bytes
      → read_at (append_ctx s h p w).0 off n ≡ read_at s off n
  read_at-append_ctx_old w off n inside =
      let (ys, e) = append_ctx-bytes w in read_grown s (append_ctx s h p w).0 ys off n e inside

-- After a write that fails with `n` bytes of the frame in the file, the next record that is written
-- stands `n` bytes behind the offset that is returned for its payload. Before that write the
-- segment's count is its file's length, and every header has the length of its payload.
pub append_ctx-after_partial :
    (s : Segment) (h h' : RecordHeader) (p p' : List ℕ) (n : ℕ)
    → InStep s
    → h.length ≡ length p
    → h'.length ≡ length p'
    → n ≤ framed_size (length p)
    → ((append_ctx (append_ctx s h p (partial n)).0 h' p' whole).1 ≡ ok (s.size + header_size))
      × (read_at
            (append_ctx (append_ctx s h p (partial n)).0 h' p' whole).0
            (s.size + header_size + n)
            (length p')
          ≡ ok p')
append_ctx-after_partial s h h' p p' n step sized sized' fits =
    rw (append_ctx-partial s h p n sized) (
      rw (append_ctx-whole (record s { bytes = torn }) h' p' sized') (
        refl,
        read_payload _ torn (s.size + header_size + n) h' p' refl (omega (arith, length-torn)),
      ))
  where
    torn : List ℕ
    torn = s.bytes ++ take n (frame h p)

    length-torn : length torn ≡ length s.bytes + n
    length-torn = omega (
      arith,
      length-append s.bytes (take n (frame h p)),
      length-take_of_le n (frame h p) (omega (arith, length-frame h p)),
    )
