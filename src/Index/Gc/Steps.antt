-- ===== src/Index/Gc/Steps.antt =====
-- GC on one set, and a segment that is in use.
use place.Common.{
  ℕ, ◌≡◌, refl, sym, ap, ◌∙◌, Bool, true, false, List, [], ◌∷◌, ◌++◌, Option, none, some, arith,
  ◌==◌, if◌then◌else◌, Bool-cases, Option-cases, inl, inr, ◌||◌,
}
use place.Errors.{Error, Result, ok, err}
use place.Segment.{Segment}
use place.SegmentSet.{SegmentSet, get_segment, delete_segment, get, remove, active_id}
use place.SegmentSet
use place.SegmentSet.Rotate.{get_segment-delete_segment_ne}
use place.Index.Gc.{GcFaults, is_referenced, all_ids, remove_unreferenced, remove_strays, gc_set}

-- What a step of GC leaves of a set, for the segment `id`.
abbrev pub Keeps : ℕ → SegmentSet → SegmentSet → Type 0
Keeps id s s' = (s'.tier ≡ s.tier) × (get_segment s'.segments id ≡ get_segment s.segments id)

Keeps-trans : (id : ℕ) (s s' s'' : SegmentSet) → Keeps id s s' → Keeps id s' s'' → Keeps id s s''
Keeps-trans id s s' s'' h k = (k.0 ∙ h.0, k.1 ∙ h.1)

either :
    (id : ℕ) (s : SegmentSet) (x y : SegmentSet × SegmentSet.Result (Unit {0})) (b : Bool)
    → Keeps id s x.0
    → Keeps id s y.0
    → Keeps id s (if b then x else y).0
either id s x y true h k = h
either id s x y false h k = k

remove-Keeps :
    (s : SegmentSet) (id gone : ℕ) (unlink_fails fsync_fails : Bool)
    → (id == gone) ≡ false
    → Keeps id s (remove s gone unlink_fails fsync_fails).0
unfolding remove
remove-Keeps s id gone unlink_fails fsync_fails ne =
    elim (Option-cases (get_segment s.segments gone)) [
      | inl missing ↦ rw (missing, remove) (refl, refl)
      | inr (seg, found) ↦
          let still : get_segment (delete_segment s.segments gone) id ≡ get_segment s.segments id =
            get_segment-delete_segment_ne s.segments id gone ne in
          rw (found, remove)
            (either id s _ _ unlink_fails (refl, still)
              (either id s _ _ fsync_fails (refl, still) (refl, still)))
    ]

-- An id that is referenced is not one that is not.
apart :
    (refs : List (ℕ × ℕ)) (tier id gone : ℕ)
    → is_referenced refs tier id ≡ true
    → is_referenced refs tier gone ≡ false
    → (id == gone) ≡ false
apart refs tier id gone h k = elim (Bool-cases (id == gone)) [
  | inl same ↦
      let e : id ≡ gone = ground (arith, same) in
      absurd (ground (arith, sym h ∙ ap (is_referenced refs tier) e ∙ k))
  | inr other ↦ other
]

then-Keeps :
    (id : ℕ) (s : SegmentSet) (x : SegmentSet × SegmentSet.Result (Unit {0}))
    (next : SegmentSet → SegmentSet × Result (Unit {0}))
    → Keeps id s x.0
    → (Keeps id s x.0 → Keeps id s (next x.0).0)
    → Keeps id s
        (elim x.1 as (λ x. SegmentSet × Result (Unit {0})) [
          | SegmentSet.ok u ↦ next x.0
          | SegmentSet.err e ↦ (x.0, err Error.segment_failed)
        ]).0
then-Keeps id s (s', SegmentSet.ok u) next h k = k h
then-Keeps id s (s', SegmentSet.err e) next h k = h

remove_unreferenced-Keeps :
    (faults : GcFaults) (refs : List (ℕ × ℕ)) (ids : List ℕ) (s : SegmentSet) (id : ℕ)
    → is_referenced refs s.tier id ≡ true
    → Keeps id s (remove_unreferenced faults refs ids s).0
unfolding remove_unreferenced
remove_unreferenced-Keeps faults refs [] s id h = (refl, refl)
remove_unreferenced-Keeps faults refs (gone ∷ ids) s id h =
    elim (Bool-cases (is_referenced refs s.tier gone)) [
      | inl used ↦ rw (used, remove_unreferenced) (remove_unreferenced-Keeps faults refs ids s id h)
      | inr unused ↦
          let x : SegmentSet × SegmentSet.Result (Unit {0}) =
            remove s gone (faults.unlink_fails gone) (faults.fsync_fails gone) in
          rw (unused, remove_unreferenced)
            (then-Keeps id s x (remove_unreferenced faults refs ids)
              (remove-Keeps s id gone (faults.unlink_fails gone) (faults.fsync_fails gone)
                (apart refs s.tier id gone h unused))
              (λ k. Keeps-trans id s x.0 (remove_unreferenced faults refs ids x.0).0 k (
                remove_unreferenced-Keeps faults refs ids x.0 id
                  (ap (λ t. is_referenced refs t id) k.0 ∙ h))))
    ]

remove_strays-Keeps :
    (faults : GcFaults) (refs : List (ℕ × ℕ)) (s : SegmentSet) (kept files : List Segment) (id : ℕ)
    → Keeps id s (remove_strays faults refs s kept files).0
unfolding remove_strays
remove_strays-Keeps faults refs s kept [] id = (refl, refl)
remove_strays-Keeps faults refs s kept (f ∷ files) id =
    elim (Bool-cases
      (is_referenced refs s.tier f.id || SegmentSet.is_some (get_segment s.segments f.id))) [
        | inl passed ↦
            rw (passed, remove_strays) (remove_strays-Keeps faults refs s (kept ++ f ∷ []) files id)
        | inr stray ↦ elim (Bool-cases (faults.stray_unlink_fails f.id)) [
          | inl fails ↦ rw (stray, fails, remove_strays) (refl, refl)
          | inr unlinked ↦
              rw (stray, unlinked, remove_strays) (remove_strays-Keeps faults refs s kept files id)
        ]
      ]

listed-Keeps :
    (faults : GcFaults) (refs : List (ℕ × ℕ)) (s s' : SegmentSet) (id : ℕ) (listing : Option Bool)
    → Keeps id s s'
    → Keeps id s
        (elim listing as (λ x. SegmentSet × Result (Unit {0})) [
          | some true ↦ (s', ok tt)
          | some false ↦ (s', err Error.segment_failed)
          | none ↦ remove_strays faults refs s' [] s'.stray
        ]).0
listed-Keeps faults refs s s' id (some true) k = k
listed-Keeps faults refs s s' id (some false) k = k
listed-Keeps faults refs s s' id none k =
    Keeps-trans id s s' (remove_strays faults refs s' [] s'.stray).0 k
      (remove_strays-Keeps faults refs s' [] s'.stray id)

finish-Keeps :
    (faults : GcFaults) (refs : List (ℕ × ℕ)) (s : SegmentSet) (id : ℕ)
    (x : SegmentSet × Result (Unit {0}))
    → Keeps id s x.0
    → Keeps id s
        (elim x.1 as (λ x. SegmentSet × Result (Unit {0})) [
          | err e ↦ (x.0, err e)
          | ok u ↦ elim faults.listing_fails as (λ x. SegmentSet × Result (Unit {0})) [
            | some true ↦ (x.0, ok tt)
            | some false ↦ (x.0, err Error.segment_failed)
            | none ↦ remove_strays faults refs x.0 [] x.0.stray
          ]
        ]).0
finish-Keeps faults refs s id (s', err e) k = k
finish-Keeps faults refs s id (s', ok u) k = listed-Keeps faults refs s s' id faults.listing_fails k

pub gc_set-Keeps :
    (faults : GcFaults) (refs : List (ℕ × ℕ)) (s : SegmentSet) (id : ℕ)
    → is_referenced refs s.tier id ≡ true
    → Keeps id s (gc_set faults refs s).0
unfolding gc_set
gc_set-Keeps faults refs s id h =
    finish-Keeps faults refs s id (remove_unreferenced faults refs (all_ids s) s)
      (remove_unreferenced-Keeps faults refs (all_ids s) s id h)
