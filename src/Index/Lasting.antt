-- ===== src/Index/Lasting.antt =====
-- AppendBatchCtx: a record that is written leaves what is in the set readable.
use place.Common.{
  ℕ, ◌+◌, ◌^◌, ◌<◌, ◌≤◌, ◌≡◌, refl, sym, ap, ◌∙◌, false, List, [], ◌∷◌, Option, some, arith, All,
  ◌==◌, Bool-cases, Option-cases, inl, inr, length, ==_iff,
}
use place.Errors.{ok}
use place.Segment.{Segment, RecordHeader, Write, whole, partial, append_ctx, framed_size}
use place.Segment
use place.Segment.Append.{InStep, read_at-append_ctx, read_at-append_ctx_old}
use place.SegmentSet.{
  SegmentSet, RotateFaults, get_segment, delete_segment, open_segment, get, active_ctx, rotated,
}
use place.SegmentSet
use place.SegmentSet.Rotate.{
  delete_segment-All, get_segment-delete_segment_ne, All-below_mono, open_segment-id,
  active_ctx_inv, rotate_inv,
}
use place.Index.Append.{put_segment, write_record}
use place.Index.Written.{
  AllInStep, Reads, get_segment-InStep, rotated-AllInStep, get-put_segment, whole_of_ok,
  append_ctx-id, appended_at_inv, found_at, active_at, write_record-active_at,
}

-- The open segments are in step with their files, and their ids are below the next one.
pub record Sound (s : SegmentSet) : Type 0 where
  pub steps : AllInStep s
  pub below : All (λ t. t.id < s.next_id) s.segments

-- What could be read can still be read.
abbrev pub Lasts : SegmentSet → SegmentSet → Type 0
Lasts s s' = (id off : ℕ) (payload : List ℕ) → Reads s id off payload → Reads s' id off payload

pub get_segment-All :
    (P : Segment → Type 0) (l : List Segment) (id : ℕ) (seg : Segment)
    → All P l
    → get_segment l id ≡ some seg
    → P seg
unfolding get_segment
get_segment-All P [] id seg h e = absurd (cc)
get_segment-All P (s ∷ l) id seg h e = elim (Bool-cases (s.id == id)) [
  | inl same ↦ let found : s ≡ seg = ground (arith, same) in rw (← found) h.0
  | inr other ↦ get_segment-All P l id seg h.1 (rw other at e)
]

pub put_segment-All :
    (P : Segment → Type 0) (l : List Segment) (seg : Segment)
    → All P l
    → P seg
    → All P (put_segment l seg)
unfolding put_segment
put_segment-All P [] seg h k = tt
put_segment-All P (s ∷ l) seg h k = elim (Bool-cases (s.id == seg.id)) [
  | inl same ↦ rw same (k, h.1)
  | inr other ↦ rw other (h.0, put_segment-All P l seg h.1 k)
]

get_segment-put_segment_ne :
    (l : List Segment) (seg : Segment) (id : ℕ)
    → (seg.id == id) ≡ false
    → get_segment (put_segment l seg) id ≡ get_segment l id
unfolding get_segment put_segment
get_segment-put_segment_ne [] seg id ne = refl
get_segment-put_segment_ne (s ∷ l) seg id ne =
    ground (arith, get_segment-put_segment_ne l seg id ne)

rotated-Sound : (s : SegmentSet) → Sound s → s.next_id + 1 < 2 ^ 32 → Sound (rotated s)
unfolding rotated
rotated-Sound s h room = record {
  steps = rotated-AllInStep s h.steps;
  below = (
    omega (arith, open_segment-id s.stray s.next_id),
    All-below_mono s.next_id _ (delete_segment s.segments s.next_id) (omega arith)
        (delete_segment-All _ s.segments s.next_id h.below),
  );
}

rotated-Lasts : (s : SegmentSet) → Sound s → Lasts s (rotated s)
unfolding rotated get get_segment
rotated-Lasts s h id off payload (seg, found, reads) =
    let (step, same) = get_segment-InStep s.segments id seg h.steps found in
    let older : seg.id < s.next_id =
      get_segment-All (λ t. t.id < s.next_id) s.segments id seg h.below found in
    let other : (id == s.next_id) ≡ false = ground (arith, same, older) in
    let other' : ((open_segment s.stray s.next_id).id == id) ≡ false =
      ground (arith, same, older, open_segment-id s.stray s.next_id) in
    (seg, rw other' (get_segment-delete_segment_ne s.segments id s.next_id other ∙ found), reads)

rotated-next_id : (s : SegmentSet) → (rotated s).next_id ≤ s.next_id + 1
unfolding rotated
rotated-next_id s = omega arith

active_ctx-Sound :
    (s mid : SegmentSet) (n : ℕ) (faults : RotateFaults) (a : ℕ)
    → Sound s
    → s.next_id + 1 < 2 ^ 32
    → active_ctx s n faults ≡ (mid, SegmentSet.ok a)
    → Sound mid × (mid.next_id ≤ s.next_id + 1) × Lasts s mid
active_ctx-Sound s mid n faults a h room e = elim (active_ctx_inv s mid n faults a e) [
  | inl rotates ↦
      rw ((rotate_inv s mid faults a rotates).0)
        (rotated-Sound s h room, rotated-next_id s, rotated-Lasts s h)
  | inr (same, active, has) ↦ rw (← same) (h, omega arith, λ id off payload r. r)
]

read_at_inside :
    (seg : Segment) (off n : ℕ) (bytes : List ℕ)
    → Segment.read_at seg off n ≡ Segment.ok bytes
    → off + n ≤ length seg.bytes
unfolding Segment.read_at
read_at_inside seg off n bytes e = ground arith

some_inj {ℓ} : {A : Type ℓ} (a b : A) → ◌≡◌ {A = Option A} (some a) (some b) → a ≡ b
some_inj a b e = cc

module _ (s : SegmentSet) (id : ℕ) (seg : Segment) (h : RecordHeader) (payload : List ℕ) (w : Write)
    (off : ℕ) (sized : h.length ≡ length payload) (sound : Sound s) (found : get s id ≡ some seg)
    (wrote : (append_ctx seg h payload w).1 ≡ Segment.ok off) where
  abbrev grown : Segment
  grown = (append_ctx seg h payload w).0

  abbrev put : SegmentSet
  put = record s { segments = put_segment s.segments grown }

  found_in : get_segment s.segments id ≡ some seg
  unfolding get
  found_in = found

  grown-InStep : InStep grown
  grown-InStep =
      let step : InStep seg = (get_segment-InStep s.segments id seg sound.steps found_in).0 in
      rw (whole_of_ok seg h payload w off wrote) (read_at-append_ctx seg h payload step sized).2

  grown-id : grown.id ≡ id
  grown-id =
      append_ctx-id seg h payload w ∙ (get_segment-InStep s.segments id seg sound.steps found_in).1

  put-Sound : Sound put
  put-Sound = record {
    steps = put_segment-All InStep s.segments grown sound.steps grown-InStep;
    below =
        put_segment-All (λ t. t.id < s.next_id) s.segments grown sound.below
          (rw (append_ctx-id seg h payload w)
            (get_segment-All (λ t. t.id < s.next_id) s.segments id seg sound.below found_in));
  }

  put-Lasts : Lasts s put
  unfolding get
  put-Lasts i o bytes (t, there, reads) = elim (Bool-cases (grown.id == i)) [
    | inl same ↦
        let at : grown.id ≡ i = (==_iff grown.id i).0 same in
        let t_is : seg ≡ t =
          some_inj seg t (sym found_in ∙ ap (get_segment s.segments) (sym grown-id ∙ at) ∙ there) in
        let read : Segment.read_at seg o (length bytes) ≡ Segment.ok bytes = rw t_is reads in
        (
          grown,
          get-put_segment s.segments i t grown at there,
          read_at-append_ctx_old seg h payload w o (length bytes)
                (read_at_inside seg o (length bytes) bytes read)
              ∙ read,
        )
    | inr other ↦ (t, get_segment-put_segment_ne s.segments grown i other ∙ there, reads)
  ]

module _ (s : SegmentSet) (h : RecordHeader) (payload : List ℕ) (w : Write)
    (sized : h.length ≡ length payload) where
  -- What a step from `s` keeps.
  abbrev pub Grows : SegmentSet → Type 0
  Grows s' = Sound s' × (s'.next_id ≤ s.next_id + 1) × Lasts s s'

  active-Grows :
      (x : SegmentSet × SegmentSet.Result ℕ) (s' : SegmentSet) (id off : ℕ)
      → ((mid : SegmentSet) (a : ℕ) → x ≡ (mid, SegmentSet.ok a) → Grows mid)
      → active_at h payload w x ≡ (s', ok (id, off))
      → Grows s'
  active-Grows (mid, SegmentSet.err x) s' id off grows e = absurd (ground arith)
  active-Grows (mid, SegmentSet.ok a) s' id off grows e = elim (Option-cases (get mid a)) [
    | inl missing ↦ absurd (ground (arith, ap (found_at h payload w mid a) (sym missing) ∙ e))
    | inr (seg, found) ↦
        let (sound, next, lasts) = grows mid a refl in
        let (same_id, wrote, same) =
          appended_at_inv mid s' a id off (append_ctx seg h payload w)
            (ap (found_at h payload w mid a) (sym found) ∙ e) in
        rw (← same) (
          put-Sound mid a seg h payload w off sized sound found wrote,
          next,
          λ i o bytes reads.
              put-Lasts mid a seg h payload w off sized sound found wrote i o bytes
                (lasts i o bytes reads),
        )
  ]

  -- Writing a record keeps the set sound, uses up at most one id, and leaves readable what was.
  pub write_record-Grows :
      (s' : SegmentSet) (faults : RotateFaults) (id off : ℕ)
      → Sound s
      → s.next_id + 1 < 2 ^ 32
      → write_record s h payload faults w ≡ (s', ok (id, off))
      → Grows s'
  write_record-Grows s' faults id off sound room e =
      active-Grows (active_ctx s (framed_size (length payload)) faults) s' id off
        (λ mid a active.
          active_ctx-Sound s mid (framed_size (length payload)) faults a sound room active)
        (sym (write_record-active_at s h payload faults w) ∙ e)
