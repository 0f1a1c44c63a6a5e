-- ===== src/Index/Gc.antt =====
-- index/index.go, GC: the segments that no fragment refers to are removed, those of a set and those that
-- lie in its directory. A fragment that is stored has the tier hot or cold.
pub mod Steps
pub mod Kept
use place.Common.{
  ℕ, suc, ◌+◌, ◌%◌, ◌^◌, Bool, true, false, ◌&&◌, ◌||◌, not, List, [], ◌∷◌, ◌++◌, Option, none,
  some, ltb, ◌==◌, if◌then◌else◌, length,
}
use place.Errors.{Error, Result, ok, err}
use place.Keys.{stripe_all_prefix, prefix_upper_bound}
use place.Fragment.{Fragment, tier_hot, tier_cold, sort_by}
use place.Segment.{Segment}
use place.SegmentSet.{SegmentSet, SetError, active_id, get_segment, is_some, remove}
use place.SegmentSet
use place.Kv.{Pebble, iter}
use place.Index.{Index, fragments_in}

-- What the operating system does: an unlink and the sync after it by id, the directory's listing
-- (`some` is an error, true if the directory does not exist), and an unlink of a stray file by id.
pub record GcFaults : Type 0 where
  pub unlink_fails : ℕ → Bool
  pub fsync_fails : ℕ → Bool
  pub listing_fails : Option Bool
  pub stray_unlink_fails : ℕ → Bool

-- referenced[tier][id]
unfoldable pub references : List Fragment → List (ℕ × ℕ)
references [] = []
references (f ∷ fs) = (f.tier, f.segment_id) ∷ references fs

unfoldable pub is_referenced : List (ℕ × ℕ) → ℕ → ℕ → Bool
is_referenced [] tier id = false
is_referenced ((t, i) ∷ refs) tier id =
    let rest = is_referenced refs tier id in if t == tier && i == id then true else rest

-- The active segment of a tier counts as referenced.
abbrev pub with_active : SegmentSet → List (ℕ × ℕ) → List (ℕ × ℕ)
with_active s refs = elim (active_id s) [ none ↦ refs | some id ↦ (s.tier, id) ∷ refs ]

unfoldable pub segment_ids : List Segment → List ℕ
segment_ids [] = []
segment_ids (s ∷ l) = s.id ∷ segment_ids l

-- All: the ids in order.
unfoldable pub all_ids : SegmentSet → List ℕ
unfolding segment_ids
all_ids s = sort_by ltb (segment_ids s.segments)

-- for _, id := range s.All()
unfoldable pub remove_unreferenced :
    GcFaults → List (ℕ × ℕ) → List ℕ → SegmentSet → SegmentSet × Result (Unit {0})
remove_unreferenced faults refs [] s = (s, ok tt)
remove_unreferenced faults refs (id ∷ ids) s = elim (is_referenced refs s.tier id) [
  | true ↦ remove_unreferenced faults refs ids s
  | false ↦
      let (s', removed) = remove s id (faults.unlink_fails id) (faults.fsync_fails id) in
      elim removed [
        | SegmentSet.ok u ↦ remove_unreferenced faults refs ids s'
        | SegmentSet.err e ↦ (s', err Error.segment_failed)
      ]
]

-- for _, e := range entries, over the files that are not open; `kept` are those passed by.
unfoldable pub remove_strays :
    GcFaults
    → List (ℕ × ℕ)
    → SegmentSet
    → List Segment
    → List Segment
    → SegmentSet × Result (Unit {0})
remove_strays faults refs s kept [] = (record s { stray = kept }, ok tt)
remove_strays faults refs s kept (f ∷ files) =
    elim (is_referenced refs s.tier f.id || is_some (get_segment s.segments f.id)) [
      | true ↦ remove_strays faults refs s (kept ++ f ∷ []) files
      | false ↦ elim (faults.stray_unlink_fails f.id) [
        | true ↦ (record s { stray = kept ++ f ∷ files }, err Error.segment_failed)
        | false ↦ remove_strays faults refs s kept files
      ]
    ]

-- One tier of the last loop of GC.
unfoldable pub gc_set : GcFaults → List (ℕ × ℕ) → SegmentSet → SegmentSet × Result (Unit {0})
gc_set faults refs s =
    let (s', removed) = remove_unreferenced faults refs (all_ids s) s in
    elim removed [
      | err e ↦ (s', err e)
      | ok u ↦ elim faults.listing_fails [
        | some true ↦ (s', ok tt)
        | some false ↦ (s', err Error.segment_failed)
        | none ↦ remove_strays faults refs s' [] s'.stray
      ]
    ]

module _ {p : Pebble} where
  -- The hot tier first.
  unfoldable pub gc_sets :
      GcFaults → GcFaults → List (ℕ × ℕ) → Index p → Index p × Result (Unit {0})
  gc_sets hot_faults cold_faults refs idx =
      let (hot, hot_done) = gc_set hot_faults refs idx.hot in
      let (cold, cold_done) = gc_set cold_faults refs idx.cold in
      elim hot_done [
        | err e ↦ (record idx { hot = hot }, err e)
        | ok u ↦ (record idx { hot = hot; cold = cold }, cold_done)
      ]

  unfoldable pub gc : GcFaults → GcFaults → Index p → Index p × Result (Unit {0})
  gc hot_faults cold_faults idx =
      elim (iter p idx.db stripe_all_prefix (prefix_upper_bound stripe_all_prefix)) [
        | err e ↦ (idx, err e)
        | ok entries ↦
            gc_sets hot_faults cold_faults
              (with_active idx.hot (with_active idx.cold (references (fragments_in entries)))) idx
      ]
