-- ===== src/Index/Copied.antt =====
-- Move: the fragments that it copies into another tier, one after the other.
use native.Mathlib.Nat.{mod-eq_of_lt}
use place.Common.{
  ℕ, suc, ◌+◌, ◌%◌, ◌^◌, ◌<◌, ◌≡◌, refl, sym, ap, ◌∙◌, Bool, true, false, List, arith, ◌==◌, ltb,
  if◌then◌else◌, Bool-cases, Option-cases, inl, inr, length, take, drop, length-take_of_le,
  length-drop,
}
use place.Errors.{Error, Result, ok, err, ok_inj, Result-cases}
use place.Fragment.{Fragment, tier_cold}
use place.Segment.{Segment, RecordHeader}
use place.Segment
use place.SegmentSet.{SegmentSet}
use place.SegmentSet
use place.Kv.{Pebble}
use place.Index.{Index, set_for, with_set, read_result}
use place.Index.Append.{Disk, write_record}
use place.Index.Move.{source_bytes, copy_fragment}
use place.Index.Written.{Reads, write_record-Reads}
use place.Index.Lasting.{write_record-Grows}
use place.Index.Stored.{set_for-with_set}
use place.Index.Staging.{Ready, Ready-set_for, Ready-with_set, Keeps, with_set-Keeps, along}

read_inj : (a b : List ℕ) → ◌≡◌ {A = Segment.Result (List ℕ)} (Segment.ok a) (Segment.ok b) → a ≡ b
read_inj a b e = cc

read_at-length :
    (s : Segment) (off n : ℕ) (bytes : List ℕ)
    → Segment.read_at s off n ≡ Segment.ok bytes
    → length bytes ≡ n
unfolding Segment.read_at
read_at-length s off n bytes e = elim (Bool-cases (ltb (length s.bytes) (off + n))) [
  | inl short ↦ absurd (ground (arith, rw short at e))
  | inr inside ↦
      let same : take n (drop off s.bytes) ≡ bytes = read_inj _ bytes (rw inside at e) in
      rw (← same)
        (length-take_of_le n (drop off s.bytes) (ground (arith, inside, length-drop off s.bytes)))
]

read_result_ok :
    (r : Segment.Result (List ℕ)) (bytes : List ℕ) → read_result r ≡ ok bytes → r ≡ Segment.ok bytes
read_result_ok (Segment.ok b) bytes e = ap Segment.ok (ok_inj b bytes e)
read_result_ok (Segment.err x) bytes e = absurd (ground arith)

-- The header of a copy, and the copy once its record was written.
abbrev copy_header : ℕ → ℕ → ℕ → Fragment → List ℕ → RecordHeader
copy_header inode stripe_id new_seq f bytes = record {
  inode = inode;
  stripe_id = stripe_id;
  seq = new_seq;
  logical_off = f.logical_off;
  length = length bytes % 2 ^ 32;
}

abbrev copy_of : Fragment → ℕ → ℕ → ℕ → ℕ → Fragment
copy_of f new_seq target id off = record {
  seq = new_seq;
  logical_off = f.logical_off;
  length = f.length;
  tier = target;
  segment_id = id;
  segment_offset = off;
}

module _ {p : Pebble} where
  abbrev copied_at :
      Index p → ℕ → ℕ → Fragment → Bool → SegmentSet × Result (ℕ × ℕ) → Index p × Result Fragment
  copied_at idx target new_seq f fails x = (
    with_set idx target x.0,
    elim x.1 [
      | err e ↦ err e
      | ok (id, off) ↦
          if fails then err Error.segment_failed else ok (copy_of f new_seq target id off)
    ],
  )

  copied_at_inv :
      (idx idx' : Index p) (target new_seq : ℕ) (f g : Fragment) (fails : Bool)
      (x : SegmentSet × Result (ℕ × ℕ))
      → copied_at idx target new_seq f fails x ≡ (idx', ok g)
      → (id off : ℕ) × (x.1 ≡ ok (id, off))
        × (g ≡ copy_of f new_seq target id off)
        × (with_set idx target x.0 ≡ idx')
  copied_at_inv idx idx' target new_seq f g fails (s, err z) h = absurd (ground arith)
  copied_at_inv idx idx' target new_seq f g true (s, ok (id, off)) h = absurd (ground arith)
  copied_at_inv idx idx' target new_seq f g false (s, ok (id, off)) h =
      (id, off, refl, sym (ok_inj _ g (λ i. (h i).1)), λ i. (h i).0)

  abbrev copied_from :
      Disk → ℕ → Index p → ℕ → ℕ → ℕ → ℕ → Fragment → Result (List ℕ) → Index p × Result Fragment
  copied_from disk i idx inode stripe_id target new_seq f (err e) = (idx, err e)
  copied_from disk i idx inode stripe_id target new_seq f (ok bytes) =
      copied_at idx target new_seq f (disk.sync_fails i) (
        write_record (set_for idx target) (copy_header inode stripe_id new_seq f bytes) bytes
          (disk.rotations i) (disk.writes i))

  copy_fragment-copied_from :
      (disk : Disk) (i : ℕ) (idx : Index p) (inode stripe_id target new_seq : ℕ) (f : Fragment)
      → copy_fragment disk i idx inode stripe_id target new_seq f
        ≡ copied_from disk i idx inode stripe_id target new_seq f (source_bytes idx f)
  unfolding copy_fragment
  copy_fragment-copied_from disk i idx inode stripe_id target new_seq f =
      elim (Result-cases (source_bytes idx f)) [
        | inl (bytes, read) ↦ rw (read, copy_fragment) refl
        | inr (e, failed) ↦ rw (failed, copy_fragment) refl
      ]

  source_bytes-Reads :
      (idx : Index p) (f : Fragment) (bytes : List ℕ)
      → f.length ≡ length bytes
      → Reads (set_for idx f.tier) f.segment_id f.segment_offset bytes
      → source_bytes idx f ≡ ok bytes
  unfolding source_bytes
  source_bytes-Reads idx f bytes len (seg, found, reads) = rw (found, len, reads, source_bytes) refl

  with_set-seq_gen :
      (idx : Index p) (tier : ℕ) (s : SegmentSet) → (with_set idx tier s).seq_gen ≡ idx.seq_gen
  with_set-seq_gen idx tier s = elim (Bool-cases (tier == tier_cold)) [
    | inl cold ↦ rw cold refl
    | inr hot ↦ rw hot refl
  ]

  -- A fragment in a tier that has the extent of `f`, and the bytes that `f` had before.
  abbrev pub Moved : ℕ → Index p → Index p → Fragment → Fragment → Type 0
  Moved target idx idx' f g =
      (g.logical_off ≡ f.logical_off)
      × (g.length ≡ f.length)
      × (g.tier ≡ target)
      × ((bytes : List ℕ)
          → f.length ≡ length bytes
          → Reads (set_for idx f.tier) f.segment_id f.segment_offset bytes
          → Reads (set_for idx' g.tier) g.segment_id g.segment_offset bytes)

  copied_from-Moved :
      (disk : Disk) (i k : ℕ) (idx idx' : Index p) (inode stripe_id target new_seq : ℕ)
      (f g : Fragment) (bytes : List ℕ)
      → Ready (suc k) idx
      → length bytes < 2 ^ 32
      → copied_from disk i idx inode stripe_id target new_seq f (ok bytes) ≡ (idx', ok g)
      → Ready k idx'
        × Keeps idx idx'
        × (idx'.seq_gen ≡ idx.seq_gen)
        × (id off : ℕ) × (g ≡ copy_of f new_seq target id off)
        × Reads (set_for idx' target) id off bytes
  copied_from-Moved disk i k idx idx' inode stripe_id target new_seq f g bytes ready small copied =
      let h : RecordHeader = copy_header inode stripe_id new_seq f bytes in
      let x : SegmentSet × Result (ℕ × ℕ) =
        write_record (set_for idx target) h bytes (disk.rotations i) (disk.writes i) in
      let (id, off, wrote, same, grown) =
        copied_at_inv idx idx' target new_seq f g (disk.sync_fails i) x copied in
      let done : x ≡ (x.0, ok (id, off)) = λ j. (x.0, wrote j) in
      let (sound, room) = Ready-set_for k idx target ready in
      let (sound', next, lasts) =
        write_record-Grows (set_for idx target) h bytes (disk.writes i) (mod-eq_of_lt small) x.0
          (disk.rotations i) id off sound room done in
      let reads : Reads x.0 id off bytes =
        write_record-Reads h bytes (disk.writes i) (mod-eq_of_lt small) (set_for idx target) x.0
          (disk.rotations i) id off sound.steps done in
      (
        along (Ready k) grown (Ready-with_set k idx target x.0 ready sound' next),
        along (Keeps idx) grown (with_set-Keeps idx target x.0 lasts),
        along (λ (z : Index p). z.seq_gen ≡ idx.seq_gen) grown (with_set-seq_gen idx target x.0),
        id,
        off,
        same,
        along (λ (z : Index p). Reads (set_for z target) id off bytes) grown
            (along (λ z. Reads z id off bytes) (sym (set_for-with_set idx target x.0)) reads),
      )

  source_bytes-length :
      (idx : Index p) (f : Fragment) (bytes : List ℕ)
      → source_bytes idx f ≡ ok bytes
      → length bytes ≡ f.length
  unfolding source_bytes
  source_bytes-length idx f bytes e =
      elim (Option-cases (SegmentSet.get (set_for idx f.tier) f.segment_id)) [
        | inl missing ↦ absurd (ground (arith, rw (missing, source_bytes) at e))
        | inr (seg, found) ↦
            read_at-length seg f.segment_offset f.length bytes
              (read_result_ok _ bytes (rw (found, source_bytes) at e))
      ]

  -- A copy that succeeds reads as the original did, and everything else as before.
  pub copy_fragment-Moved :
      (disk : Disk) (i k : ℕ) (idx idx' : Index p) (inode stripe_id target new_seq : ℕ)
      (f g : Fragment)
      → Ready (suc k) idx
      → f.length < 2 ^ 32
      → copy_fragment disk i idx inode stripe_id target new_seq f ≡ (idx', ok g)
      → Ready k idx'
        × Keeps idx idx'
        × (idx'.seq_gen ≡ idx.seq_gen)
        × (g.seq ≡ new_seq)
        × Moved target idx idx' f g
  copy_fragment-Moved disk i k idx idx' inode stripe_id target new_seq f g ready small copied =
      let from : Result (List ℕ) → Index p × Result Fragment =
        copied_from disk i idx inode stripe_id target new_seq f in
      let begun : from (source_bytes idx f) ≡ (idx', ok g) =
        sym (copy_fragment-copied_from disk i idx inode stripe_id target new_seq f) ∙ copied in
      elim (Result-cases (source_bytes idx f)) [
        | inr (e, failed) ↦ absurd (ground (arith, ap from (sym failed) ∙ begun))
        | inl (bytes, read) ↦
            let len : length bytes ≡ f.length = source_bytes-length idx f bytes read in
            let (ready', kept, gen, id, off, same, reads) =
              copied_from-Moved disk i k idx idx' inode stripe_id target new_seq f g bytes ready
                (omega (arith, len, small)) (ap from (sym read) ∙ begun) in
            rw same (
              ready',
              kept,
              gen,
              refl,
              (
                refl,
                refl,
                refl,
                λ bytes' long there.
                    along (Reads (set_for idx' target) id off)
                      (ok_inj bytes bytes' (sym read ∙ source_bytes-Reads idx f bytes' long there))
                      reads,
              ),
            )
      ]
