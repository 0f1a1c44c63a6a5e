-- ===== src/SegmentSet/Repair.antt =====
-- RepairTail after a crash in the middle of an append.
use place.Common.{
  ℕ, ◌+◌, ◌<◌, ◌≡◌, ap, ◌∙◌, List, [], ◌∷◌, ◌++◌, arith, All, length, length-append, take,
  take-append, ltb_of_le, ltb_of_lt,
}
use place.Segment.{RecordHeader, Segment, done, scan, frame, framed_size, truncate}
use place.Segment.Frame.{length-frame}
use place.Segment.Scan.{IsRecord, frames, visit_all, written, scan-frames}
use mathlib.Core.List.{append-nil}
use place.SegmentSet.{ok, accept, cut_to, repair_segment}

visit_all-frames :
    (pos : ℕ) (rs : List (RecordHeader × List ℕ))
    → All IsRecord rs
    → visit_all accept pos rs tt ≡ done tt (pos + length (frames rs))
unfolding visit_all frames
visit_all-frames pos [] g = ap (done tt) (omega arith)
visit_all-frames pos (r ∷ rs) g =
    visit_all-frames (pos + framed_size r.0.length) rs g.1
    ∙ ap (done tt)
        (omega (arith, length-append (frame r.0 r.1) (frames rs), length-frame r.0 r.1, g.0.sized))

truncate-append :
    (id : ℕ) (xs ys : List ℕ)
    → 0 < length ys
    → (truncate (written id (xs ++ ys)) (length xs)).0 ≡ written id xs
unfolding truncate
truncate-append id xs ys h = ground (arith, length-append xs ys, take-append xs ys)

repair_of_done :
    (seg : Segment) (pos : ℕ)
    → scan accept seg tt ≡ done tt pos
    → repair_segment seg ≡ cut_to seg pos
repair_of_done seg pos e = unfold repair_segment in rw (e, repair_segment)

cut_short :
    (id : ℕ) (xs ys : List ℕ) → cut_to (written id (xs ++ ys)) (length xs) ≡ (written id xs, ok tt)
unfolding cut_to
cut_short id xs [] = rw (append-nil, ltb_of_le (length xs) (length xs) (omega arith))
cut_short id xs (y ∷ ys) = rw (
  ltb_of_lt (length xs) (length (xs ++ y ∷ ys)) (omega (arith, length-append xs (y ∷ ys))),
  truncate-append id xs (y ∷ ys) (omega arith),
)

-- Repair of a file of whole records and then a record cut short at any byte, also at its first, with
-- every header's length that of its payload and its fields in their ranges, succeeds and leaves just
-- the whole records.
pub repair_segment-frames :
    (id k : ℕ) (rs : List (RecordHeader × List ℕ)) (h : RecordHeader) (p : List ℕ)
    → All IsRecord rs
    → IsRecord (h, p)
    → k < framed_size (length p)
    → repair_segment (written id (frames rs ++ take k (frame h p)))
      ≡ (written id (frames rs), ok tt)
repair_segment-frames id k rs h p g r cut =
    repair_of_done (written id (frames rs ++ take k (frame h p))) (length (frames rs)) (
      scan-frames accept id k rs h p tt g r cut
      ∙ visit_all-frames 0 rs g
      ∙ ap (done tt) (omega arith))
    ∙ cut_short id (frames rs) (take k (frame h p))
