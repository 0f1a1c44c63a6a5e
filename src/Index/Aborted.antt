-- ===== src/Index/Aborted.antt =====
-- AppendBatchCtx where it fails: nothing is committed.
use place.Common.{
  ℕ, suc, ◌+◌, ◌≡◌, refl, sym, ap, ◌∙◌, Bool, true, false, List, [], ◌∷◌, ◌++◌, arith, ltb,
  if◌then◌else◌, Bool-cases, inl, inr, length,
}
use place.Errors.{Error, Result, err, Result-cases}
use place.Fragment.{Fragment}
use place.Segment.{Write}
use place.SegmentSet.{RotateFaults}
use place.Kv.{Pebble, Batch, new_batch, commit}
use place.Kv.Laws.{Laws}
use place.Index.{Index, commit_index}
use place.Index.Append.{
  AppendExtent, Disk, stage, stage_extent, stripe_end, fragment_batch, append_batch_ctx,
  commit_hooked, run_hook,
}
use place.Index.Stored.{with_set-db}
use place.Index.Staging.{next_extents, stage-next_extents}
use place.Index.Committed.{
  Hook, after_hook, commit_hooked-after_hook, staged, after_stage, append_batch_ctx-after_stage,
}

module _ {p : Pebble} where
  either-db {ℓ} :
      {R : Type ℓ} (d : p.Db) (b : Bool) (x y : Index p × R)
      → x.0.db ≡ d
      → y.0.db ≡ d
      → (if b then x else y).0.db ≡ d
  either-db d true x y h k = h
  either-db d false x y h k = k

  stage_extent-db :
      (idx : Index p) (inode : ℕ) (e : AppendExtent) (faults : RotateFaults) (w : Write)
      → (stage_extent idx inode e faults w).0.db ≡ idx.db
  unfolding stage_extent
  stage_extent-db idx inode e faults w =
      either-db idx.db (ltb (stripe_end idx.stripe_size e.off) (e.off + length e.bytes)) _ _ refl
        (with_set-db idx e.tier _)

  stage-db :
      (disk : Disk) (i inode : ℕ) (idx : Index p) (es : List AppendExtent)
      (pendings : List (ℕ × Fragment))
      → (stage disk i idx inode es pendings).0.db ≡ idx.db
  unfolding stage
  stage-db disk i inode idx [] pendings = refl
  stage-db disk i inode idx (e ∷ es) pendings =
      let x : Index p × Result (ℕ × Fragment) =
        stage_extent idx inode e (disk.rotations i) (disk.writes i) in
      let first : x.0.db ≡ idx.db =
        stage_extent-db idx inode e (disk.rotations i) (disk.writes i) in
      let next : Index p × Result (ℕ × Fragment) → Index p × Result (List (ℕ × Fragment)) =
        next_extents disk i inode es pendings in
      ap (λ (z : Index p × Result (List (ℕ × Fragment))). z.0.db)
        (sym (stage-next_extents disk i inode idx e es pendings))
      ∙ elim (Result-cases x.1) [
        | inr (failure, failed) ↦ ap (λ r. (next (x.0, r)).0.db) failed ∙ first
        | inl (y, pending) ↦
            ap (λ r. (next (x.0, r)).0.db) pending
            ∙ stage-db disk (suc i) inode x.0 es (pendings ++ y ∷ [])
            ∙ first
      ]

module _ {p : Pebble} (laws : Laws p) where
  commit_index-failed :
      (idx idx' : Index p) (b : Batch) (x : Error)
      → commit_index idx b ≡ (idx', err x)
      → laws.entries idx'.db ≡ laws.entries idx.db
  unfolding commit
  commit_index-failed idx idx' b x e = elim (Bool-cases (p.pebble_commit idx.db b).1) [
    | inl succeeded ↦ absurd (ground (arith, succeeded))
    | inr aborted ↦
        let same : (p.pebble_commit idx.db b).0 ≡ idx'.db = ap (λ z. z.0.db) e in
        rw (← same, laws.commit_law idx.db b, aborted) refl
  ]

  commit_hooked-failed :
      (idx idx' : Index p) (hook : Hook p) (b : Batch) (x : Error)
      → commit_hooked idx hook b ≡ (idx', err x)
      → laws.entries idx'.db ≡ laws.entries idx.db
  commit_hooked-failed idx idx' hook b x e =
      let e' : after_hook idx (run_hook idx hook b) ≡ (idx', err x) =
        sym (commit_hooked-after_hook idx hook b) ∙ e in
      elim (Result-cases (run_hook idx hook b)) [
        | inl (b', built) ↦ commit_index-failed idx idx' b' x (ap (after_hook idx) (sym built) ∙ e')
        | inr (y, failed) ↦
            ap (λ (z : Index p × Result (Unit {0})). laws.entries z.0.db)
              (sym (ap (after_hook idx) (sym failed) ∙ e'))
      ]

  unsynced :
      (failed : Bool) (idx idx' : Index p) (hook : Hook p) (b : Batch) (x : Error)
      → (if failed then (idx, err Error.segment_failed) else commit_hooked idx hook b)
        ≡ (idx', err x)
      → laws.entries idx'.db ≡ laws.entries idx.db
  unsynced true idx idx' hook b x e =
      ap (λ (z : Index p × Result (Unit {0})). laws.entries z.0.db) (sym e)
  unsynced false idx idx' hook b x e = commit_hooked-failed idx idx' hook b x e

  -- AppendBatchCtx that fails leaves the database as it was.
  pub append_batch_ctx-failed :
      (disk : Disk) (idx idx' : Index p) (inode : ℕ) (e : AppendExtent) (es : List AppendExtent)
      (hook : Hook p) (x : Error)
      → append_batch_ctx disk idx inode (e ∷ es) hook ≡ (idx', err x)
      → laws.entries idx'.db ≡ laws.entries idx.db
  append_batch_ctx-failed disk idx idx' inode e es hook x done =
      let mid : Index p × Result (List (ℕ × Fragment)) = staged disk inode idx e es hook in
      let next : Index p × Result (List (ℕ × Fragment)) → Index p × Result (Unit {0}) =
        after_stage disk inode idx e es hook in
      let kept : laws.entries mid.0.db ≡ laws.entries idx.db =
        ap (λ db. laws.entries db) (stage-db disk 0 inode idx (e ∷ es) []) in
      let done' : next mid ≡ (idx', err x) =
        sym (append_batch_ctx-after_stage disk inode idx e es hook) ∙ done in
      elim (Result-cases mid.1) [
        | inr (y, failed) ↦
            ap (λ (z : Index p × Result (Unit {0})). laws.entries z.0.db)
              (sym (ap (λ r. next (mid.0, r)) (sym failed) ∙ done'))
            ∙ kept
        | inl (ys, pending) ↦
            unsynced (disk.sync_fails 0) mid.0 idx' hook (fragment_batch inode ys new_batch) x
              (ap (λ r. next (mid.0, r)) (sym pending) ∙ done')
            ∙ kept
      ]
