-- ===== src/Index/Staging.antt =====
-- AppendBatchCtx: the extents of one batch, staged one after the other.
use place.Common.{
  ℕ, suc, ◌+◌, ◌^◌, ◌<◌, ◌≤◌, ◌≡◌, refl, sym, ap, ◌∙◌, Bool, true, false, List, [], ◌∷◌, ◌++◌,
  arith, All, ◌==◌, ltb, if◌then◌else◌, Bool-cases, inl, inr, length,
}
use place.Errors.{Error, Result, ok, err, ok_inj, Result-cases}
use place.Fragment.{Fragment, tier_cold}
use place.Segment.{Write}
use place.SegmentSet.{SegmentSet, RotateFaults}
use place.Kv.{Pebble}
use place.Index.{Index, set_for, with_set, stripe_of}
use place.Index.Append.{
  AppendExtent, Disk, stripe_end, record_header, fragment_at, write_record, stage_extent, stage,
}
use place.Index.Written.{Reads, write_record-Reads}
use place.Index.Lasting.{Sound, Lasts, write_record-Grows}
use place.Index.Stored.{staged_at_inv, unless_across, set_for-with_set}
use native.Mathlib.Nat.{mod-eq_of_lt}
use mathlib.Core.List.{append_assoc, append-nil}

both-Lasts :
    (hot hot' cold cold' : SegmentSet) (is_cold : Bool)
    → Lasts hot hot'
    → Lasts cold cold'
    → Lasts (if is_cold then cold else hot) (if is_cold then cold' else hot')
both-Lasts hot hot' cold cold' true h k = k
both-Lasts hot hot' cold cold' false h k = h

-- What holds of one end of a path holds of the other.
pub along {ℓ κ} : {A : Type ℓ} (P : A → Type κ) {a b : A} → a ≡ b → P a → P b
along P e h = rw (← e) h

module _ {p : Pebble} where
  -- Both sets are sound, and have ids left for `k` more segments.
  pub record Ready (k : ℕ) (idx : Index p) : Type 0 where
    pub hot_sound : Sound idx.hot
    pub cold_sound : Sound idx.cold
    pub hot_room : idx.hot.next_id + k < 2 ^ 32
    pub cold_room : idx.cold.next_id + k < 2 ^ 32

  -- The database is the same, and what could be read still can.
  abbrev pub Keeps : Index p → Index p → Type 0
  Keeps idx idx' =
      (idx'.db ≡ idx.db)
      × (idx'.stripe_size ≡ idx.stripe_size)
      × ((tier : ℕ) → Lasts (set_for idx tier) (set_for idx' tier))

  -- A pending fragment of an extent, which reads the extent's bytes.
  abbrev pub Readable : Index p → AppendExtent → ℕ × Fragment → Type 0
  Readable idx e y =
      (id : ℕ) × (off : ℕ) × (y ≡ (stripe_of idx.stripe_size e.off, fragment_at e id off))
      × Reads (set_for idx e.tier) id off e.bytes

  pub Ready-set_for :
      (k : ℕ) (idx : Index p) (tier : ℕ)
      → Ready (suc k) idx
      → Sound (set_for idx tier) × ((set_for idx tier).next_id + 1 < 2 ^ 32)
  Ready-set_for k idx tier r = elim (Bool-cases (tier == tier_cold)) [
    | inl cold ↦ rw cold (r.cold_sound, omega (arith, r.cold_room))
    | inr hot ↦ rw hot (r.hot_sound, omega (arith, r.hot_room))
  ]

  pub Ready-with_set :
      (k : ℕ) (idx : Index p) (tier : ℕ) (s : SegmentSet)
      → Ready (suc k) idx
      → Sound s
      → s.next_id ≤ (set_for idx tier).next_id + 1
      → Ready k (with_set idx tier s)
  Ready-with_set k idx tier s r sound next = elim (Bool-cases (tier == tier_cold)) [
    | inl cold ↦
        let small : s.next_id ≤ idx.cold.next_id + 1 = rw cold at next in
        rw cold (record {
          hot_sound = r.hot_sound;
          cold_sound = sound;
          hot_room = omega (arith, r.hot_room);
          cold_room = omega (arith, r.cold_room, small);
        })
    | inr hot ↦
        let small : s.next_id ≤ idx.hot.next_id + 1 = rw hot at next in
        rw hot (record {
          hot_sound = sound;
          cold_sound = r.cold_sound;
          hot_room = omega (arith, r.hot_room, small);
          cold_room = omega (arith, r.cold_room);
        })
  ]

  pub with_set-Keeps :
      (idx : Index p) (tier : ℕ) (s : SegmentSet)
      → Lasts (set_for idx tier) s
      → Keeps idx (with_set idx tier s)
  with_set-Keeps idx tier s lasts = elim (Bool-cases (tier == tier_cold)) [
    | inl cold ↦
        let grows : Lasts idx.cold s = rw cold at lasts in
        rw cold (
          refl,
          refl,
          λ t. both-Lasts idx.hot idx.hot idx.cold s (t == tier_cold) (λ i o l r. r) grows,
        )
    | inr hot ↦
        let grows : Lasts idx.hot s = rw hot at lasts in
        rw hot (
          refl,
          refl,
          λ t. both-Lasts idx.hot s idx.cold idx.cold (t == tier_cold) grows (λ i o l r. r),
        )
  ]

  stage_extent-Readable :
      (k : ℕ) (idx idx' : Index p) (inode : ℕ) (e : AppendExtent) (faults : RotateFaults)
      (w : Write) (y : ℕ × Fragment)
      → Ready (suc k) idx
      → length e.bytes < 2 ^ 32
      → stage_extent idx inode e faults w ≡ (idx', ok y)
      → Ready k idx' × Readable idx' e y × Keeps idx idx'
  unfolding stage_extent
  stage_extent-Readable k idx idx' inode e faults w y ready small staged =
      let stripe_id : ℕ = stripe_of idx.stripe_size e.off in
      let x : SegmentSet × Result (ℕ × ℕ) =
        write_record (set_for idx e.tier) (record_header inode stripe_id e) e.bytes faults w in
      let (id, off, wrote, same, grown) = staged_at_inv idx idx' e stripe_id x y (
        unless_across idx idx' (ltb (stripe_end idx.stripe_size e.off) (e.off + length e.bytes)) _ y
          staged) in
      let done : write_record (set_for idx e.tier) (record_header inode stripe_id e) e.bytes faults
            w
          ≡ (x.0, ok (id, off)) =
        λ i. (x.0, wrote i) in
      let (sound, room) = Ready-set_for k idx e.tier ready in
      let (sound', next, lasts) =
        write_record-Grows (set_for idx e.tier) (record_header inode stripe_id e) e.bytes w
          (mod-eq_of_lt small) x.0 faults id off sound room done in
      let reads : Reads x.0 id off e.bytes =
        write_record-Reads (record_header inode stripe_id e) e.bytes w (mod-eq_of_lt small)
          (set_for idx e.tier) x.0 faults id off sound.steps done in
      let kept : Keeps idx idx' = along (Keeps idx) grown (with_set-Keeps idx e.tier x.0 lasts) in
      (
        along (Ready k) grown (Ready-with_set k idx e.tier x.0 ready sound' next),
        (
          id,
          off,
          same ∙ ap (λ z. (stripe_of z e.off, fragment_at e id off)) (sym kept.1),
          along (λ (z : Index p). Reads (set_for z e.tier) id off e.bytes) grown
              (along (λ z. Reads z id off e.bytes) (sym (set_for-with_set idx e.tier x.0)) reads),
        ),
        kept,
      )

  pub Keeps-trans : (idx mid idx' : Index p) → Keeps idx mid → Keeps mid idx' → Keeps idx idx'
  Keeps-trans idx mid idx' h k = (
    k.0 ∙ h.0,
    k.1 ∙ h.1,
    λ tier id off payload reads. k.2 tier id off payload (h.2 tier id off payload reads),
  )

  Readable-Keeps :
      (idx idx' : Index p) (e : AppendExtent) (y : ℕ × Fragment)
      → Keeps idx idx'
      → Readable idx e y
      → Readable idx' e y
  Readable-Keeps idx idx' e y k (id, off, same, reads) = (
    id,
    off,
    same ∙ ap (λ z. (stripe_of z e.off, fragment_at e id off)) (sym k.1),
    k.2 e.tier id off e.bytes reads,
  )

  -- The pending fragments of the extents, in order.
  abbrev pub Staged : Index p → List AppendExtent → List (ℕ × Fragment) → Type 0
  Staged idx [] ys = ys ≡ []
  Staged idx (e ∷ es) ys =
      (y : ℕ × Fragment) × (rest : List (ℕ × Fragment)) × (ys ≡ y ∷ rest)
      × Readable idx e y
      × Staged idx es rest

  abbrev pub next_extents :
      Disk
      → ℕ
      → ℕ
      → List AppendExtent
      → List (ℕ × Fragment)
      → Index p × Result (ℕ × Fragment)
      → Index p × Result (List (ℕ × Fragment))
  next_extents disk i inode es pendings (mid, err x) = (mid, err x)
  next_extents disk i inode es pendings (mid, ok y) =
      stage disk (suc i) mid inode es (pendings ++ y ∷ [])

  pub stage-next_extents :
      (disk : Disk) (i inode : ℕ) (idx : Index p) (e : AppendExtent) (es : List AppendExtent)
      (pendings : List (ℕ × Fragment))
      → next_extents disk i inode es pendings
          (stage_extent idx inode e (disk.rotations i) (disk.writes i))
        ≡ stage disk i idx inode (e ∷ es) pendings
  unfolding stage
  stage-next_extents disk i inode idx e es pendings = refl

  not_failed :
      (idx idx' : Index p) (x : Error) (out : List (ℕ × Fragment))
      → ◌≡◌ {A = Index p × Result (List (ℕ × Fragment))} (idx, err x) (idx', ok out)
      → ⊥
  not_failed idx idx' x out h = ground arith

  -- Staging that succeeds leaves a readable fragment for every extent.
  pub stage-Staged :
      (disk : Disk) (i inode : ℕ) (idx idx' : Index p) (es : List AppendExtent)
      (pendings out : List (ℕ × Fragment))
      → Ready (length es) idx
      → All (λ e. length e.bytes < 2 ^ 32) es
      → stage disk i idx inode es pendings ≡ (idx', ok out)
      → (ys : List (ℕ × Fragment)) × (out ≡ pendings ++ ys) × Staged idx' es ys × Keeps idx idx'
  unfolding stage
  stage-Staged disk i inode idx idx' [] pendings out ready small done = (
    [],
    sym (ok_inj _ out (λ j. (done j).1)) ∙ sym (append-nil pendings),
    refl,
    along (Keeps idx) (λ j. (done j).0) (refl, refl, λ tier id off payload reads. reads),
  )
  stage-Staged disk i inode idx idx' (e ∷ es) pendings out ready small done =
      let x : Index p × Result (ℕ × Fragment) =
        stage_extent idx inode e (disk.rotations i) (disk.writes i) in
      let next : Index p × Result (ℕ × Fragment) → Index p × Result (List (ℕ × Fragment)) =
        next_extents disk i inode es pendings in
      let begun : next x ≡ (idx', ok out) =
        stage-next_extents disk i inode idx e es pendings ∙ done in
      elim (Result-cases x.1) [
        | inr (failure, failed) ↦
            absurd (not_failed x.0 idx' failure out (ap next (λ j. (x.0, sym failed j)) ∙ begun))
        | inl (y, pending) ↦
            let (ready', readable, kept) =
              stage_extent-Readable (length es) idx x.0 inode e (disk.rotations i) (disk.writes i) y
                ready small.0 (λ j. (x.0, pending j)) in
            let (ys, same, staged, kept') =
              stage-Staged disk (suc i) inode x.0 idx' es (pendings ++ y ∷ []) out ready' small.1
                (ap next (λ j. (x.0, sym pending j)) ∙ begun) in
            (
              y ∷ ys,
              same ∙ append_assoc pendings (y ∷ []) ys,
              (y, ys, refl, Readable-Keeps x.0 idx' e y kept' readable, staged),
              Keeps-trans idx x.0 idx' kept kept',
            )
      ]
