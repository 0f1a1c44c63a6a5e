-- ===== src/Index/Written.antt =====
-- AppendBatchCtx: what a record's write leaves in a segment set.
use place.Common.{
  ℕ, ◌+◌, ◌≡◌, refl, sym, ap, ◌∙◌, List, [], ◌∷◌, Option, none, some, arith, All, ◌==◌, Bool-cases,
  Option-cases, inl, inr, length, ==_self, ==_iff,
}
use place.Errors.{Error, Result, ok, err}
use place.Segment.{
  Segment, RecordHeader, Write, whole, partial, append_ctx, append_written, framed_size,
  header_size,
}
use place.Segment
use place.Segment.Append.{InStep, read_at-append_ctx}
use place.SegmentSet.{
  SegmentSet, RotateFaults, get_segment, delete_segment, open_segment, get, active_ctx, rotate,
  rotated, has_room,
}
use place.SegmentSet
use place.SegmentSet.Rotate.{delete_segment-All, active_ctx_inv, rotate_inv}
use place.Index.Append.{put_segment, write_record}

-- Every open segment's count is its file's length.
abbrev pub AllInStep : SegmentSet → Type 0
AllInStep s = All InStep s.segments

pub get_segment-InStep :
    (l : List Segment) (id : ℕ) (seg : Segment)
    → All InStep l
    → get_segment l id ≡ some seg
    → InStep seg × (seg.id ≡ id)
unfolding get_segment
get_segment-InStep [] id seg h e = absurd (cc)
get_segment-InStep (s ∷ l) id seg h e = elim (Bool-cases (s.id == id)) [
  | inl same ↦
      let found : s ≡ seg = ground (arith, same) in rw (← found) (h.0, (==_iff s.id id).0 same)
  | inr other ↦ get_segment-InStep l id seg h.1 (rw other at e)
]

pub open_segment-InStep : (stray : List Segment) (id : ℕ) → InStep (open_segment stray id)
unfolding open_segment
open_segment-InStep stray id = elim (Option-cases (get_segment stray id)) [
  | inl missing ↦ rw (missing, open_segment) refl
  | inr (s, found) ↦ rw (found, open_segment) refl
]

pub rotated-AllInStep : (set : SegmentSet) → AllInStep set → AllInStep (rotated set)
unfolding rotated
rotated-AllInStep set h = (
  open_segment-InStep set.stray set.next_id,
  delete_segment-All InStep set.segments set.next_id h,
)

active_ctx-AllInStep :
    (set set' : SegmentSet) (n : ℕ) (faults : RotateFaults) (id : ℕ)
    → AllInStep set
    → active_ctx set n faults ≡ (set', SegmentSet.ok id)
    → AllInStep set'
active_ctx-AllInStep set set' n faults id h e = elim (active_ctx_inv set set' n faults id e) [
  | inl rotates ↦ rw ((rotate_inv set set' faults id rotates).0) (rotated-AllInStep set h)
  | inr (same, active, room) ↦ rw (← same) h
]

pub get_segment-put_segment :
    (l : List Segment) (old seg : Segment)
    → get_segment l seg.id ≡ some old
    → get_segment (put_segment l seg) seg.id ≡ some seg
unfolding get_segment put_segment
get_segment-put_segment [] old seg e = absurd (cc)
get_segment-put_segment (s ∷ l) old seg e = elim (Bool-cases (s.id == seg.id)) [
  | inl same ↦ rw (same, ==_self seg.id) refl
  | inr other ↦
      rw (other, put_segment)
        (rw (other, get_segment) (get_segment-put_segment l old seg (rw other at e)))
]

-- A write that returned an offset wrote the whole frame.
pub whole_of_ok :
    (seg : Segment) (h : RecordHeader) (payload : List ℕ) (w : Write) (off : ℕ)
    → (append_ctx seg h payload w).1 ≡ Segment.ok off
    → w ≡ whole
unfolding append_ctx append_written
whole_of_ok seg h payload whole off e = refl
whole_of_ok seg h payload (partial n) off e = absurd (ground arith)

pub append_ctx-id :
    (seg : Segment) (h : RecordHeader) (payload : List ℕ) (w : Write)
    → (append_ctx seg h payload w).0.id ≡ seg.id
unfolding append_ctx append_written
append_ctx-id seg h payload whole = ground arith
append_ctx-id seg h payload (partial n) = ground arith

-- The part of write_record after the active segment was found, and after the append.
abbrev pub appended_at : SegmentSet → ℕ → Segment × Segment.Result ℕ → SegmentSet × Result (ℕ × ℕ)
appended_at s id y = (
  record s { segments = put_segment s.segments y.0 },
  elim y.1 [ Segment.ok off ↦ ok (id, off) | Segment.err e ↦ err Error.segment_failed ],
)

abbrev pub found_at :
    RecordHeader → List ℕ → Write → SegmentSet → ℕ → Option Segment → SegmentSet × Result (ℕ × ℕ)
found_at h payload w s id none = (s, err Error.segment_missing)
found_at h payload w s id (some seg) = appended_at s id (append_ctx seg h payload w)

abbrev pub active_at :
    RecordHeader → List ℕ → Write → SegmentSet × SegmentSet.Result ℕ → SegmentSet × Result (ℕ × ℕ)
active_at h payload w (s, SegmentSet.err e) = (s, err Error.segment_failed)
active_at h payload w (s, SegmentSet.ok id) = found_at h payload w s id (get s id)

pub write_record-active_at :
    (s : SegmentSet) (h : RecordHeader) (payload : List ℕ) (faults : RotateFaults) (w : Write)
    → write_record s h payload faults w
      ≡ active_at h payload w (active_ctx s (framed_size (length payload)) faults)
unfolding write_record
write_record-active_at s h payload faults w = refl

-- The segment and the offset where the set has the payload.
abbrev pub Reads : SegmentSet → ℕ → ℕ → List ℕ → Type 0
Reads s id off payload =
    (seg : Segment) × (get s id ≡ some seg)
    × (Segment.read_at seg off (length payload) ≡ Segment.ok payload)

pub appended_at_inv :
    (s s' : SegmentSet) (id id' off : ℕ) (y : Segment × Segment.Result ℕ)
    → appended_at s id y ≡ (s', ok (id', off))
    → (id ≡ id')
      × (y.1 ≡ Segment.ok off)
      × (record s { segments = put_segment s.segments y.0 } ≡ s')
appended_at_inv s s' id id' off (seg, Segment.err x) e = absurd (ground arith)
appended_at_inv s s' id id' off (seg, Segment.ok o) e = (ground arith, ground arith, λ i. (e i).0)

pub get-put_segment :
    (l : List Segment) (id : ℕ) (old seg : Segment)
    → seg.id ≡ id
    → get_segment l id ≡ some old
    → get_segment (put_segment l seg) id ≡ some seg
get-put_segment l id old seg e found =
    ap (get_segment (put_segment l seg)) (sym e)
    ∙ get_segment-put_segment l old seg (ap (get_segment l) e ∙ found)

offset_inj : (a b : ℕ) → ◌≡◌ {A = Segment.Result ℕ} (Segment.ok a) (Segment.ok b) → a ≡ b
offset_inj a b e = cc

module _ (h : RecordHeader) (payload : List ℕ) (w : Write) (sized : h.length ≡ length payload) where
  appended-Reads :
      (s s' : SegmentSet) (id id' off : ℕ) (seg : Segment)
      → AllInStep s
      → get s id ≡ some seg
      → appended_at s id (append_ctx seg h payload w) ≡ (s', ok (id', off))
      → Reads s' id' off payload
  unfolding get
  appended-Reads s s' id id' off seg steps found e =
      let (same_id, at, same) = appended_at_inv s s' id id' off (append_ctx seg h payload w) e in
      let (step, seg_id) = get_segment-InStep s.segments id seg steps found in
      let all_written : w ≡ whole = whole_of_ok seg h payload w off at in
      let (offset, reads, kept) = read_at-append_ctx seg h payload step sized in
      let seg' : Segment = (append_ctx seg h payload w).0 in
      let id_kept : seg'.id ≡ id' = append_ctx-id seg h payload w ∙ seg_id ∙ same_id in
      let same_off : seg.size + header_size ≡ off =
        offset_inj _ off
          (sym offset ∙ ap (λ v. (append_ctx seg h payload v).1) (sym all_written) ∙ at) in
      (
        seg',
        ap (λ t. get_segment t.segments id') (sym same)
            ∙ get-put_segment s.segments id' seg seg' id_kept
                (ap (get_segment s.segments) (sym same_id) ∙ found),
        ap (λ v. Segment.read_at (append_ctx seg h payload v).0 off (length payload)) all_written
            ∙ ap (λ o. Segment.read_at (append_ctx seg h payload whole).0 o (length payload))
                (sym same_off)
            ∙ reads,
      )

  active-Reads :
      (x : SegmentSet × SegmentSet.Result ℕ) (s' : SegmentSet) (id off : ℕ)
      → ((mid : SegmentSet) (a : ℕ) → x ≡ (mid, SegmentSet.ok a) → AllInStep mid)
      → active_at h payload w x ≡ (s', ok (id, off))
      → Reads s' id off payload
  active-Reads (mid, SegmentSet.err x) s' id off steps e = absurd (ground arith)
  active-Reads (mid, SegmentSet.ok a) s' id off steps e = elim (Option-cases (get mid a)) [
    | inl missing ↦ absurd (ground (arith, ap (found_at h payload w mid a) (sym missing) ∙ e))
    | inr (seg, found) ↦
        appended-Reads mid s' a id off seg (steps mid a refl) found
          (ap (found_at h payload w mid a) (sym found) ∙ e)
  ]

  -- A record that was written to a set can be read back at the id and the offset that come back.
  pub write_record-Reads :
      (s s' : SegmentSet) (faults : RotateFaults) (id off : ℕ)
      → AllInStep s
      → write_record s h payload faults w ≡ (s', ok (id, off))
      → Reads s' id off payload
  write_record-Reads s s' faults id off steps e =
      active-Reads (active_ctx s (framed_size (length payload)) faults) s' id off
        (λ mid a active.
          active_ctx-AllInStep s mid (framed_size (length payload)) faults a steps active)
        (sym (write_record-active_at s h payload faults w) ∙ e)
