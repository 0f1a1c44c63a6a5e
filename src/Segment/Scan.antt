-- ===== src/Segment/Scan.antt =====
-- Scan over a file that holds whole records and then a torn one.
use place.Common.{
  drop-take, ℕ, zero, suc, ◌+◌, ◌≤◌, ◌<◌, ◌≡◌, ◌≢◌, refl, ap, ◌∙◌, List, [], ◌∷◌, ◌++◌, Option,
  none, some, arith, All, ltb_of_le, length, length-append, length-take_of_le, length-take-le,
  length-drop, take, drop, Option-cases, inl, inr,
}
use place.Common.Bytes.{le_at, from_le}
use place.Segment.{
  RecordHeader, Segment, Scanned, done, failed, out_of_fuel, frame, framed_size, header_size,
  header_at, crc_matches, scan_loop, scan,
}
use place.Segment.Frame.{
  Fits, length-frame, has_magic-frame, has_version-frame, header_at-frame, crc_matches-frame,
  drop-frame,
}
use mathlib.Core.List.{append-nil, append_assoc}

-- A record as AppendCtx accepts it.
pub record IsRecord (r : RecordHeader × List ℕ) : Type 0 where
  pub fits : Fits r.0
  pub sized : r.0.length ≡ length r.1

unfoldable pub frames : List (RecordHeader × List ℕ) → List ℕ
frames [] = []
frames (r ∷ rs) = frame r.0 r.1 ++ frames rs

length_field :
    (h : RecordHeader) (p : List ℕ) (k : ℕ)
    → IsRecord (h, p)
    → 40 ≤ k
    → (header_at (take k (frame h p))).length ≡ length p
unfolding header_at le_at
length_field h p k r bound =
    ap from_le (drop-take 36 4 k (frame h p) bound)
    ∙ ap (λ (g : RecordHeader). g.length) (rw append-nil at (header_at-frame h p [] r.fits))
    ∙ r.sized

length-le-frames : (rs : List (RecordHeader × List ℕ)) → length rs ≤ length (frames rs)
unfolding frames
length-le-frames [] = omega arith
length-le-frames (r ∷ rs) =
    omega
      (arith, length-append (frame r.0 r.1) (frames rs), length-frame r.0 r.1, length-le-frames rs)

-- A segment that has written all of its file.
abbrev pub written : ℕ → List ℕ → Segment
written id bytes = record { id = id; bytes = bytes; size = length bytes }

take_all : (l : List ℕ) → take (length l) l ≡ l
take_all [] = refl
take_all (x ∷ l) = ap (◌∷◌ x) (take_all l)

module _ {S : Type 0} (visit : RecordHeader → ℕ → S → Option S) where
  -- What the visitor makes of the records in order, each at its payload's offset.
  unfoldable pub visit_all : ℕ → List (RecordHeader × List ℕ) → S → Scanned S
  visit_all pos [] s = done s pos
  visit_all pos (r ∷ rs) s = elim (visit r.0 (pos + header_size) s) [
    | none ↦ failed
    | some s' ↦ visit_all (pos + framed_size r.0.length) rs s'
  ]

  scan_loop_step :
      (fuel pos : ℕ) (h : RecordHeader) (p more : List ℕ) (s : S)
      → IsRecord (h, p)
      → scan_loop visit (suc fuel) pos (frame h p ++ more) s
        ≡ (elim (visit h (pos + header_size) s) [
          | none ↦ failed
          | some s' ↦ scan_loop visit fuel (pos + framed_size h.length) more s'
        ])
  unfolding scan_loop
  scan_loop_step fuel pos h p more s r =
      rw
        (
          header_at-frame h p more r.fits,
          ltb_of_le (length (frame h p ++ more)) 44 (omega (arith, size)),
          has_magic-frame h p more,
          has_version-frame h p more,
          ltb_of_le (length (frame h p ++ more)) (framed_size h.length)
              (omega (arith, size, r.sized)),
          ap (crc_matches (frame h p ++ more)) r.sized ∙ crc_matches-frame h p more,
        )
        (elim (Option-cases (visit h (pos + header_size) s)) [
          | inl e ↦ rw e refl
          | inr (s', e) ↦ rw e (
              rw
                (
                  header_at-frame h p more r.fits,
                  ap (λ n. drop (framed_size n) (frame h p ++ more)) r.sized ∙ drop-frame h p more,
                )
                refl)
        ])
    where
      size : framed_size (length p) ≤ length (frame h p ++ more)
      size = omega (arith, length-append (frame h p) more, length-frame h p)

  -- A record cut short is no record.
  scan_loop_torn :
      (fuel pos k : ℕ) (h : RecordHeader) (p : List ℕ) (s : S)
      → IsRecord (h, p)
      → k < framed_size (length p)
      → scan_loop visit (suc fuel) pos (take k (frame h p)) s ≡ done s pos
  unfolding scan_loop
  scan_loop_torn fuel pos k h p s r cut =
      ground (arith, length-frame h p, length-take_of_le k (frame h p), length_field h p k r)

  pub scan_loop-frames :
      (fuel pos k : ℕ) (rs : List (RecordHeader × List ℕ)) (h : RecordHeader) (p : List ℕ) (s : S)
      → length rs < fuel
      → All IsRecord rs
      → IsRecord (h, p)
      → k < framed_size (length p)
      → scan_loop visit fuel pos (frames rs ++ take k (frame h p)) s ≡ visit_all pos rs s
  unfolding frames visit_all
  scan_loop-frames zero pos k rs h p s enough g r cut = absurd (omega arith)
  scan_loop-frames (suc fuel) pos k [] h p s enough g r cut = scan_loop_torn fuel pos k h p s r cut
  scan_loop-frames (suc fuel) pos k ((h', p') ∷ rs) h p s enough g r cut =
      ap (λ l. scan_loop visit (suc fuel) pos l s)
        (append_assoc (frame h' p') (frames rs) (take k (frame h p)))
      ∙ scan_loop_step fuel pos h' p' (frames rs ++ take k (frame h p)) s g.0
      ∙ (elim (Option-cases (visit h' (pos + header_size) s)) [
        | inl e ↦ rw (e, visit_all)
        | inr (s', e) ↦
            rw (e, visit_all)
              (scan_loop-frames fuel (pos + framed_size h'.length) k rs h p s' (omega arith) g.1 r
                cut)
      ])

  scan_loop-ne-out_of_fuel :
      (fuel pos : ℕ) (rest : List ℕ) (s : S)
      → length rest < fuel
      → scan_loop visit fuel pos rest s ≢ out_of_fuel
  unfolding scan_loop
  scan_loop-ne-out_of_fuel zero pos rest s h = absurd (omega arith)
  scan_loop-ne-out_of_fuel (suc fuel) pos rest s h =
      elim (Option-cases (visit (header_at rest) (pos + header_size) s)) [
        | inl e ↦ ground (arith, e)
        | inr (s', e) ↦
            let size : ℕ = framed_size (header_at rest).length in
            ground (
              arith,
              e,
              length-drop size rest,
              scan_loop-ne-out_of_fuel fuel (pos + size) (drop size rest) s',
            )
      ]

  -- Scan ends on any bytes at all.
  scan-ne-out_of_fuel : (seg : Segment) (s : S) → scan visit seg s ≢ out_of_fuel
  unfolding scan
  scan-ne-out_of_fuel seg s = ground (
    arith,
    scan_loop-ne-out_of_fuel (suc (length seg.bytes)) 0 (take seg.size seg.bytes) s,
    length-take-le seg.size seg.bytes,
  )

  -- A file of whole records and then a record cut short at any byte, with every header's length that
  -- of its payload and its fields in their ranges: Scan hands the whole records to the visitor in
  -- order, each at its payload's offset, and no more.
  pub scan-frames :
      (id k : ℕ) (rs : List (RecordHeader × List ℕ)) (h : RecordHeader) (p : List ℕ) (s : S)
      → All IsRecord rs
      → IsRecord (h, p)
      → k < framed_size (length p)
      → scan visit (written id (frames rs ++ take k (frame h p))) s ≡ visit_all 0 rs s
  unfolding scan
  scan-frames id k rs h p s g r cut =
      rw (ltb_of_le (length all) (length all) (omega arith), take_all all)
        (scan_loop-frames (suc (length all)) 0 k rs h p s
          (omega (arith, length-le-frames rs, length-append (frames rs) (take k (frame h p)))) g r
          cut)
    where
      all : List ℕ
      all = frames rs ++ take k (frame h p)
