-- ===== src/Index/Gc/Kept.antt =====
-- GC and the segments that are in use.
use place.Common.{
  ℕ, ◌≡◌, refl, sym, ap, ◌∙◌, true, List, [], ◌∷◌, arith, Option-cases, inl, inr, ==_self, ◌⊎◌,
}
use place.Errors.{Result, ok, err}
use place.SegmentSet.{SegmentSet, get, active_id}
use place.Fragment.{Fragment, Locator, tier_hot, tier_cold}
use place.Index.{Index, read_at, fragments_in}
use place.Index.Gc.{GcFaults, references, is_referenced, with_active, gc_set, gc_sets, gc}
use place.Kv.{Bytes, Pebble, iter}
use place.Keys.{stripe_all_prefix, prefix_upper_bound}
use place.Index.Gc.Steps.{Keeps, gc_set-Keeps}
use mathlib.Core.List.{Memᴰ}

-- Where a fragment is, its segment is referenced.
references-Mem :
    (f : Fragment) (fs : List Fragment)
    → Memᴰ f fs
    → is_referenced (references fs) f.tier f.segment_id ≡ true
unfolding references is_referenced
references-Mem f [] m = elim m [ ]
references-Mem f (g ∷ fs) (Memᴰ.head e) = rw (← e, ==_self f.tier, ==_self f.segment_id) refl
references-Mem f (g ∷ fs) (Memᴰ.tail m) = ground (arith, references-Mem f fs m)

with_active-referenced :
    (s : SegmentSet) (refs : List (ℕ × ℕ)) (tier id : ℕ)
    → is_referenced refs tier id ≡ true
    → is_referenced (with_active s refs) tier id ≡ true
unfolding is_referenced active_id
with_active-referenced s refs tier id h = elim (Option-cases s.active) [
  | inl unset ↦ rw (unset, active_id) h
  | inr (a, present) ↦ rw (present, active_id) (ground (arith, h))
]

-- What GC leaves of both sets of an index, for the segment `id` of the tier where it is in use.
abbrev KeepsBoth : {p : Pebble} → List (ℕ × ℕ) → ℕ → Index p → Index p → Type 0
KeepsBoth refs id idx idx' =
    (is_referenced refs idx.hot.tier id ≡ true → Keeps id idx.hot idx'.hot)
    × (is_referenced refs idx.cold.tier id ≡ true → Keeps id idx.cold idx'.cold)

both-KeepsBoth :
    {p : Pebble} (refs : List (ℕ × ℕ)) (id : ℕ) (idx : Index p)
    (hot cold : SegmentSet × Result (Unit {0}))
    → (is_referenced refs idx.hot.tier id ≡ true → Keeps id idx.hot hot.0)
    → (is_referenced refs idx.cold.tier id ≡ true → Keeps id idx.cold cold.0)
    → KeepsBoth refs id idx
        (elim hot.1 as (λ x. Index p × Result (Unit {0})) [
          | err e ↦ (record idx { hot = hot.0 }, err e)
          | ok u ↦ (record idx { hot = hot.0; cold = cold.0 }, cold.1)
        ]).0
both-KeepsBoth refs id idx (s, ok u) cold h k = (h, k)
both-KeepsBoth refs id idx (s, err e) cold h k = (h, λ used. (refl, refl))

module _ {p : Pebble} (hot_faults cold_faults : GcFaults) (idx : Index p) where
  gc_sets-KeepsBoth :
      (refs : List (ℕ × ℕ)) (id : ℕ)
      → KeepsBoth refs id idx (gc_sets hot_faults cold_faults refs idx).0
  unfolding gc_sets
  gc_sets-KeepsBoth refs id =
      both-KeepsBoth refs id idx (gc_set hot_faults refs idx.hot) (gc_set cold_faults refs idx.cold)
        (gc_set-Keeps hot_faults refs idx.hot id) (gc_set-Keeps cold_faults refs idx.cold id)

  -- GC keeps every segment that a stored fragment lies in: whatever the disk does, a read at such a
  -- fragment gives after GC what it gave before. The sets have their own tiers' tags, and the fragment
  -- one of the two.
  pub gc-read_at :
      (entries : List (Bytes × Bytes)) (f : Fragment) (loc : Locator) (n : ℕ)
      → idx.hot.tier ≡ tier_hot
      → idx.cold.tier ≡ tier_cold
      → iter p idx.db stripe_all_prefix (prefix_upper_bound stripe_all_prefix) ≡ ok entries
      → Memᴰ f (fragments_in entries)
      → (f.tier ≡ tier_hot) ⊎ (f.tier ≡ tier_cold)
      → loc.tier ≡ f.tier
      → loc.segment_id ≡ f.segment_id
      → read_at (gc hot_faults cold_faults idx).0 loc n ≡ read_at idx loc n
  unfolding gc read_at get
  gc-read_at entries f loc n hot cold scanned m tier same_tier same_id =
      let refs : List (ℕ × ℕ) =
        with_active idx.hot (with_active idx.cold (references (fragments_in entries))) in
      let used : is_referenced refs f.tier f.segment_id ≡ true =
        with_active-referenced idx.hot _ f.tier f.segment_id (
          with_active-referenced idx.cold _ f.tier f.segment_id
            (references-Mem f (fragments_in entries) m)) in
      let of_tier : (t : ℕ) → t ≡ f.tier → is_referenced refs t f.segment_id ≡ true =
        λ t e. ap (λ t. is_referenced refs t f.segment_id) e ∙ used in
      let (keeps_hot, keeps_cold) = gc_sets-KeepsBoth refs f.segment_id in
      elim tier [
        | inl is_hot ↦
            rw
              (
                scanned,
                same_tier,
                same_id,
                is_hot,
                gc,
                read_at,
                (keeps_hot (of_tier idx.hot.tier (hot ∙ sym is_hot))).1,
              )
              refl
        | inr is_cold ↦
            rw
              (
                scanned,
                same_tier,
                same_id,
                is_cold,
                gc,
                read_at,
                (keeps_cold (of_tier idx.cold.tier (cold ∙ sym is_cold))).1,
              )
              refl
      ]
