-- ===== src/Mover/Evict.antt =====
-- mover/mover.go, evictOnce, gcOnce and RunOnce over the index. What the context and the disk do is an
-- argument, by the candidate's position.
use place.Common.{
  ℕ, suc, ◌+◌, ◌-◌, ◌*◌, Bool, true, false, List, [], ◌∷◌, ◌++◌, Option, none, some, leb, ltb, ◌==◌,
  if◌then◌else◌,
}
use place.Errors.{Error, Result, ok, err}
use place.Fragment.{tier_cold}
use place.Kv.{Pebble}
use place.Index.{Index, hot_used_bytes}
use place.Index.Append.{Disk}
use place.Index.Upkeep.{StripeInfo, iter_stripes}
use place.Index.Move.{move}
use place.Index.Gc.{GcFaults, gc}

pub record Cand : Type 0 where
  pub inode : ℕ
  pub stripe_id : ℕ
  pub hot_bytes : ℕ

-- The configuration's limits and the counters that say what was done.
pub record Mover : Type 0 where
  pub hot_max_bytes : ℕ
  pub hot_target_bytes : ℕ
  pub evict_runs : ℕ
  pub gc_runs : ℕ
  pub moves_ok : ℕ
  pub move_failures : ℕ
  pub bytes_moved : ℕ

-- The visitor of evictOnce: the candidates so far and their bytes, and whether to go on.
unfoldable pub queue_stripe : ℕ → StripeInfo → List Cand × ℕ → (List Cand × ℕ) × Bool
queue_stripe want s (cands, queued) = if s.hot_bytes == 0 then ((cands, queued), true) else (
  (
    cands ++ record { inode = s.inode; stripe_id = s.stripe_id; hot_bytes = s.hot_bytes } ∷ [],
    queued + s.hot_bytes,
  ),
  ltb (queued + s.hot_bytes) (want * 2),
)

abbrev pub counted : Mover → Cand → Result (Unit {0}) → Mover
counted m c (err e) = record m { move_failures = m.move_failures + 1 }
counted m c (ok u) = record m {
  moves_ok = m.moves_ok + 1;
  bytes_moved = m.bytes_moved + c.hot_bytes;
}

module _ {p : Pebble} where
  -- for _, c := range cands
  unfoldable pub evict_loop :
      (ℕ → Bool)
      → (ℕ → Disk)
      → ℕ
      → Mover
      → Index p
      → List Cand
      → Mover × Index p × Result (Unit {0})
  evict_loop stopped disks i m idx [] = (m, idx, ok tt)
  evict_loop stopped disks i m idx (c ∷ cands) = elim (stopped i) [
    | true ↦ (m, idx, err Error.cancelled)
    | false ↦ elim (leb (hot_used_bytes idx) m.hot_target_bytes) [
      | true ↦ (m, idx, ok tt)
      | false ↦
          let (idx', moved) = move (disks i) idx c.inode c.stripe_id tier_cold in
          evict_loop stopped disks (suc i) (counted m c moved) idx' cands
    ]
  ]

  -- `none` is a panic of IterStripes.
  unfoldable pub evict_once :
      (ℕ → Bool) → (ℕ → Disk) → Mover → Index p → Option (Mover × Index p × Result (Unit {0}))
  evict_once stopped disks m idx =
      let begun : Mover = record m { evict_runs = m.evict_runs + 1 } in
      let used = hot_used_bytes idx in
      if m.hot_max_bytes == 0
      then some (begun, idx, ok tt)
      else if leb used m.hot_max_bytes
      then some (begun, idx, ok tt)
      else elim (iter_stripes p idx (queue_stripe (used - m.hot_target_bytes)) ([], 0)) [
        | none ↦ none
        | some (err e) ↦ some (begun, idx, err e)
        | some (ok (cands, queued)) ↦ some (evict_loop stopped disks 0 begun idx cands)
      ]

  unfoldable pub gc_once :
      GcFaults → GcFaults → Mover → Index p → Mover × Index p × Result (Unit {0})
  gc_once hot_faults cold_faults m idx =
      let (idx', done) = gc hot_faults cold_faults idx in
      (record m { gc_runs = m.gc_runs + 1 }, idx', done)

  -- A context that is never done.
  unfoldable pub run_once :
      (ℕ → Disk)
      → GcFaults
      → GcFaults
      → Mover
      → Index p
      → Option (Mover × Index p × Result (Unit {0}))
  run_once disks hot_faults cold_faults m idx = elim (evict_once (λ i. false) disks m idx) [
    | none ↦ none
    | some (m', idx', err e) ↦ some (m', idx', err e)
    | some (m', idx', ok u) ↦ some (gc_once hot_faults cold_faults m' idx')
  ]
