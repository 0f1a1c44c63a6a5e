-- ===== src/Index/Committed.antt =====
-- AppendBatchCtx: the batch that it commits, with the writes of its hook.
use place.Common.{
  ℕ, ◌^◌, ◌<◌, ◌≡◌, refl, sym, ap, ◌∙◌, List, [], ◌∷◌, Option, none, some, arith, All,
  if◌then◌else◌, inl, inr, length,
}
use place.Errors.{Error, Result, ok, err, Result-cases}
use place.Fragment.{Fragment}
use place.Kv.{Pebble, Batch, Bytes, new_batch, commit}
use place.Kv.Entries.{entry}
use place.Kv.Entries.Lookup.{last_op, entry-apply_ops}
use place.Kv.Laws.{Laws, commit_lem}
use place.Index.{Index, commit_index}
use place.Index.Append.{
  AppendExtent, Disk, stage, fragment_batch, append_batch_ctx, run_hook, commit_hooked,
}
use place.Index.Stored.{unless_failed}
use place.Index.Staging.{Ready, Staged, along, stage-Staged}

abbrev pub Hook : Pebble → Type 0
Hook p = Option (p.Db → Batch → Result Batch)

module _ {p : Pebble} where
  abbrev pub after_hook : Index p → Result Batch → Index p × Result (Unit {0})
  after_hook idx (err x) = (idx, err x)
  after_hook idx (ok b) = commit_index idx b

  pub commit_hooked-after_hook :
      (idx : Index p) (hook : Hook p) (b : Batch)
      → commit_hooked idx hook b ≡ after_hook idx (run_hook idx hook b)
  commit_hooked-after_hook idx none b = refl
  commit_hooked-after_hook idx (some hook) b = along_result (hook idx.db b)
    where
      along_result :
          (r : Result Batch)
          → elim r [ err x ↦ (idx, err x) | ok b' ↦ commit_index idx b' ] ≡ after_hook idx r
      along_result (err x) = refl
      along_result (ok b') = refl

  -- A commit that succeeds had its hook succeed.
  pub commit_hooked_inv :
      (idx idx' : Index p) (hook : Hook p) (b : Batch)
      → commit_hooked idx hook b ≡ (idx', ok tt)
      → (b' : Batch) × (run_hook idx hook b ≡ ok b') × (commit_index idx b' ≡ (idx', ok tt))
  commit_hooked_inv idx idx' hook b done =
      let done' : after_hook idx (run_hook idx hook b) ≡ (idx', ok tt) =
        sym (commit_hooked-after_hook idx hook b) ∙ done in
      elim (Result-cases (run_hook idx hook b)) [
        | inl (b', built) ↦ (b', built, ap (after_hook idx) (sym built) ∙ done')
        | inr (x, failed) ↦ absurd (ground (arith, ap (after_hook idx) (sym failed) ∙ done'))
      ]

  pub run_hook-db :
      (idx mid : Index p) (hook : Hook p) (b : Batch)
      → mid.db ≡ idx.db
      → run_hook mid hook b ≡ run_hook idx hook b
  run_hook-db idx mid none b same = refl
  run_hook-db idx mid (some hook) b same = ap (λ db. hook db b) same

module _ {p : Pebble} (disk : Disk) (inode : ℕ) (idx : Index p) (e : AppendExtent)
    (es : List AppendExtent) (hook : Hook p) where
  abbrev pub staged : Index p × Result (List (ℕ × Fragment))
  staged = stage disk 0 idx inode (e ∷ es) []

  abbrev pub after_stage : Index p × Result (List (ℕ × Fragment)) → Index p × Result (Unit {0})
  after_stage (mid, err x) = (mid, err x)
  after_stage (mid, ok pendings) =
      if disk.sync_fails 0
      then (mid, err Error.segment_failed)
      else commit_hooked mid hook (fragment_batch inode pendings new_batch)

  pub append_batch_ctx-after_stage :
      append_batch_ctx disk idx inode (e ∷ es) hook ≡ after_stage staged
  unfolding append_batch_ctx
  append_batch_ctx-after_stage = refl

module _ {p : Pebble} (laws : Laws p) (idx idx' : Index p) (inode : ℕ) (e : AppendExtent)
    (es : List AppendExtent) (disk : Disk) (hook : Hook p) (ready : Ready (length (e ∷ es)) idx)
    (small : All (λ d. length d.bytes < 2 ^ 32) (e ∷ es))
    (done : append_batch_ctx disk idx inode (e ∷ es) hook ≡ (idx', ok tt)) where
  abbrev begun : Index p × Result (List (ℕ × Fragment))
  begun = staged disk inode idx e es hook

  append_staged :
      (ys : List (ℕ × Fragment)) × (begun.1 ≡ ok ys)
      × (commit_hooked begun.0 hook (fragment_batch inode ys new_batch) ≡ (idx', ok tt))
  append_staged = elim (Result-cases begun.1) [
    | inr (failure, failed) ↦ absurd (
        ground (
          arith,
          ap (after_stage disk inode idx e es hook) (λ i. (begun.0, sym failed i))
              ∙ sym (append_batch_ctx-after_stage disk inode idx e es hook)
              ∙ done,
        ))
    | inl (ys, pending) ↦ (
      ys,
      pending,
      unless_failed begun.0 idx' (disk.sync_fails 0)
          (commit_hooked begun.0 hook (fragment_batch inode ys new_batch))
          (ap (after_stage disk inode idx e es hook) (λ i. (begun.0, sym pending i))
            ∙ sym (append_batch_ctx-after_stage disk inode idx e es hook)
            ∙ done),
    )
  ]

  -- The fragments that are pending, the batch that the hook made of them, and what is stored after it.
  pub append_batch_ctx-committed :
      (out : List (ℕ × Fragment)) × (b : Batch) × (run_hook idx hook
          (fragment_batch inode out new_batch)
        ≡ ok b)
      × Staged idx' (e ∷ es) out
      × ((q : Bytes) → entry (laws.entries idx'.db) q ≡ last_op b q (entry (laws.entries idx.db) q))
  append_batch_ctx-committed =
      let (out, pending, hooked) = append_staged in
      let (ys, same, all_staged, kept) =
        stage-Staged disk 0 inode idx begun.0 (e ∷ es) [] out ready small
          (λ i. (begun.0, pending i)) in
      let (b, built, committed) =
        commit_hooked_inv begun.0 idx' hook (fragment_batch inode out new_batch) hooked in
      let db_done : commit p begun.0.db b ≡ (idx'.db, ok tt) =
        λ i. ((committed i).0.db, (committed i).1) in
      (
        out,
        b,
        sym (run_hook-db idx begun.0 hook (fragment_batch inode out new_batch) kept.0) ∙ built,
        along (λ z. Staged z (e ∷ es) out) (λ i. (committed i).0)
            (along (λ l. Staged begun.0 (e ∷ es) l) (sym same) all_staged),
        λ q.
            ap (λ l. entry l q) (commit_lem p laws begun.0.db idx'.db b db_done)
            ∙ entry-apply_ops b (laws.entries begun.0.db) q
            ∙ ap (λ db. last_op b q (entry (laws.entries db) q)) kept.0,
      )
