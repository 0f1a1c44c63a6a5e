-- ===== src/Index/Stored.antt =====
-- AppendBatchCtx and ReadAtCtx: one staged extent, and a read at its fragment.
use place.Common.{
  ℕ, ◌≡◌, refl, sym, Bool, true, false, List, arith, ◌==◌, if◌then◌else◌, Bool-cases, inl, inr,
  length,
}
use place.Errors.{Error, Result, ok, err, ok_inj}
use place.Fragment.{Fragment, Locator, tier_cold}
use place.SegmentSet.{SegmentSet}
use place.Kv.{Pebble}
use place.Index.{Index, set_for, with_set, read_at}
use place.Index.Append.{AppendExtent, fragment_at}
use place.Index.Written.{Reads}

-- The locator of a whole fragment.
abbrev pub whole_of : Fragment → Locator
whole_of f = record {
  tier = f.tier;
  segment_id = f.segment_id;
  offset = f.segment_offset;
  length = f.length;
}

either_way : (b : Bool) (n : ℕ) → (if b then n else n) ≡ n
either_way true n = refl
either_way false n = refl

module _ {p : Pebble} where
  pub set_for-with_set :
      (idx : Index p) (tier : ℕ) (s : SegmentSet) → set_for (with_set idx tier s) tier ≡ s
  set_for-with_set idx tier s = elim (Bool-cases (tier == tier_cold)) [
    | inl cold ↦ rw cold refl
    | inr hot ↦ rw hot refl
  ]

  pub with_set-db : (idx : Index p) (tier : ℕ) (s : SegmentSet) → (with_set idx tier s).db ≡ idx.db
  with_set-db idx tier s = elim (Bool-cases (tier == tier_cold)) [
    | inl cold ↦ rw cold refl
    | inr hot ↦ rw hot refl
  ]

  pub read_at-Reads :
      (idx : Index p) (f : Fragment) (payload : List ℕ)
      → f.length ≡ length payload
      → Reads (set_for idx f.tier) f.segment_id f.segment_offset payload
      → read_at idx (whole_of f) (length payload) ≡ ok payload
  unfolding read_at
  read_at-Reads idx f payload len (seg, found, reads) =
      rw (found, len, either_way, reads, read_at) refl

  abbrev pub staged_at :
      Index p → AppendExtent → ℕ → SegmentSet × Result (ℕ × ℕ) → Index p × Result (ℕ × Fragment)
  staged_at idx e stripe_id x = (
    with_set idx e.tier x.0,
    elim x.1 [
      | err y ↦ err y
      | ok (id, payload_off) ↦ ok (stripe_id, fragment_at e id payload_off)
    ],
  )

  pub staged_at_inv :
      (idx idx' : Index p) (e : AppendExtent) (stripe_id : ℕ) (x : SegmentSet × Result (ℕ × ℕ))
      (y : ℕ × Fragment)
      → staged_at idx e stripe_id x ≡ (idx', ok y)
      → (id : ℕ) × (off : ℕ) × (x.1 ≡ ok (id, off))
        × (y ≡ (stripe_id, fragment_at e id off))
        × (with_set idx e.tier x.0 ≡ idx')
  staged_at_inv idx idx' e stripe_id (s, err z) y h = absurd (ground arith)
  staged_at_inv idx idx' e stripe_id (s, ok (id, off)) y h =
      (id, off, refl, sym (ok_inj _ y (λ i. (h i).1)), λ i. (h i).0)

  pub unless_across :
      (idx idx' : Index p) (across : Bool) (z : Index p × Result (ℕ × Fragment)) (y : ℕ × Fragment)
      → (if across then (idx, err Error.straddles) else z) ≡ (idx', ok y)
      → z ≡ (idx', ok y)
  unless_across idx idx' true z y h = absurd (ground arith)
  unless_across idx idx' false z y h = h

pub unless_failed :
    {p : Pebble} (idx idx' : Index p) (failed : Bool) (z : Index p × Result (Unit {0}))
    → (if failed then (idx, err Error.segment_failed) else z) ≡ (idx', ok tt)
    → z ≡ (idx', ok tt)
unless_failed idx idx' true z h = absurd (ground arith)
unless_failed idx idx' false z h = h
