-- ===== src/Mover/Pressure.antt =====
-- mover/mover.go, the loop of evictOnce against the usage that it looks at.
use place.Common.{
  ℕ, suc, ◌+◌, ◌<◌, ◌≡◌, refl, ap, ◌∙◌, Bool, false, List, [], ◌∷◌, ◌++◌, arith, leb, ◌==◌, length,
  Bool-cases, inl, inr,
}
use place.Errors.{Result, ok, err, Result-cases}
use place.Keys.{fragment_stripe_prefix, prefix_upper_bound}
use place.Fragment.{Fragment, tier_cold, canonical_view}
use place.Kv.{Bytes, Pebble, iter}
use place.SegmentSet.{SegmentSet}
use place.Index.{Index, used_bytes, hot_used_bytes, bump_seq, fragments_in}
use place.Index.Append.{Disk}
use place.Index.Move.{move, move_fragments, copy_fragment, source_bytes}
use place.Mover.Evict.{Cand, Mover, counted, evict_loop}

-- The moves that were tried, those that failed included.
abbrev pub tried : Mover → ℕ
tried m = m.moves_ok + m.move_failures

counted-target :
    (m : Mover) (c : Cand) (r : Result (Unit {0}))
    → (counted m c r).hot_target_bytes ≡ m.hot_target_bytes
counted-target m c (ok u) = refl
counted-target m c (err e) = refl

abbrev one_if_ok : Result (Unit {0}) → ℕ
one_if_ok (err e) = 0
one_if_ok (ok u) = 1

counted-moves_ok :
    (m : Mover) (c : Cand) (r : Result (Unit {0}))
    → (counted m c r).moves_ok ≡ m.moves_ok + one_if_ok r
counted-moves_ok m c (ok u) = refl
counted-moves_ok m c (err e) = omega arith

counted_one_more :
    (m : Mover) (c : Cand) (r : Result (Unit {0}))
    → (counted m c r).moves_ok + (counted m c r).move_failures ≡ m.moves_ok + m.move_failures + 1
counted_one_more m c (ok u) = omega arith
counted_one_more m c (err e) = omega arith

module _ {p : Pebble} where
  copy_fragment-hot :
      (disk : Disk) (i : ℕ) (idx : Index p) (inode st seq : ℕ) (f : Fragment)
      → (copy_fragment disk i idx inode st tier_cold seq f).0.hot ≡ idx.hot
  unfolding copy_fragment
  copy_fragment-hot disk i idx inode st seq f = elim (Result-cases (source_bytes idx f)) [
    | inl (bytes, read) ↦ rw (copy_fragment, read) refl
    | inr (e, failed) ↦ rw (copy_fragment, failed) refl
  ]

  move_fragments-hot :
      (disk : Disk) (i : ℕ) (idx : Index p) (inode st : ℕ) (view new_frags : List Fragment)
      → (move_fragments disk i idx inode st tier_cold view new_frags).0.hot ≡ idx.hot
  unfolding move_fragments
  move_fragments-hot disk i idx inode st [] new_frags = refl
  move_fragments-hot disk i idx inode st (f ∷ view) new_frags =
      let seq = (bump_seq idx).seq_gen in
      let copied = copy_fragment disk i (bump_seq idx) inode st tier_cold seq f in
      elim (Bool-cases (f.tier == tier_cold)) [
        | inl cold ↦
            rw (cold, move_fragments)
              (move_fragments-hot disk (suc i) (bump_seq idx) inode st view
                (new_frags ++ record f { seq = seq } ∷ []))
        | inr hot ↦ elim (Result-cases copied.1) [
          | inl (g, done) ↦
              rw (hot, done, move_fragments)
                (move_fragments-hot disk (suc i) copied.0 inode st view (new_frags ++ g ∷ [])
                  ∙ copy_fragment-hot disk i (bump_seq idx) inode st seq f)
          | inr (e, failed) ↦
              rw (hot, failed, move_fragments)
                (copy_fragment-hot disk i (bump_seq idx) inode st seq f)
        ]
      ]

  moved_view-hot :
      (disk : Disk) (idx : Index p) (inode st : ℕ) (entries : List (Bytes × Bytes))
      (frags : List Fragment)
      → iter p idx.db
          (fragment_stripe_prefix inode st)
          (prefix_upper_bound (fragment_stripe_prefix inode st))
        ≡ ok entries
      → fragments_in entries ≡ frags
      → (move disk idx inode st tier_cold).0.hot ≡ idx.hot
  unfolding move
  moved_view-hot disk idx inode st entries [] found none_there = rw (found, none_there, move) refl
  moved_view-hot disk idx inode st entries (f ∷ frags) found there =
      let view = canonical_view (f ∷ frags) in
      let moved = move_fragments disk 0 idx inode st tier_cold view [] in
      elim (Result-cases moved.1) [
        | inl (new_frags, done) ↦
            rw (found, there, done, move) (move_fragments-hot disk 0 idx inode st view [])
        | inr (e, failed) ↦
            rw (found, there, failed, move) (move_fragments-hot disk 0 idx inode st view [])
      ]

  -- A move to the cold tier leaves the hot segments as they are, whatever becomes of it.
  move-hot :
      (disk : Disk) (idx : Index p) (inode st : ℕ)
      → (move disk idx inode st tier_cold).0.hot ≡ idx.hot
  unfolding move
  move-hot disk idx inode st =
      elim (Result-cases (
        iter p idx.db (fragment_stripe_prefix inode st)
          (prefix_upper_bound (fragment_stripe_prefix inode st)))) [
            | inl (entries, found) ↦
                moved_view-hot disk idx inode st entries (fragments_in entries) found refl
            | inr (e, failed) ↦ rw (failed, move) refl
          ]

  hot_used_bytes-hot :
      (idx idx' : Index p) → idx.hot ≡ idx'.hot → hot_used_bytes idx ≡ hot_used_bytes idx'
  unfolding hot_used_bytes
  hot_used_bytes-hot idx idx' same = ap (λ (set : SegmentSet). used_bytes set.segments) same

  -- Every candidate moved, in order, with no look at the usage.
  abbrev pub moved_all : (ℕ → Disk) → ℕ → Index p → List Cand → Index p
  moved_all disks i idx [] = idx
  moved_all disks i idx (c ∷ cands) =
      moved_all disks (suc i) (move (disks i) idx c.inode c.stripe_id tier_cold).0 cands

  -- How many of those moves succeed.
  abbrev pub moves_made : (ℕ → Disk) → ℕ → Index p → List Cand → ℕ
  moves_made disks i idx [] = 0
  moves_made disks i idx (c ∷ cands) =
      let (idx', moved) = move (disks i) idx c.inode c.stripe_id tier_cold in
      one_if_ok moved + moves_made disks (suc i) idx' cands

  -- The loop of evictOnce, begun above the target and not stopped, ends without an error after it has
  -- tried to move every candidate to the cold tier, once and in order, those that fail included, and
  -- has counted the moves that succeed: the usage that it looks at is at the end what it was at the
  -- start, so it never stops at the target.
  pub evict_loop-moved_all :
      (stopped : ℕ → Bool) (disks : ℕ → Disk) (i : ℕ) (m : Mover) (idx : Index p)
      (cands : List Cand)
      → ((j : ℕ) → stopped j ≡ false)
      → m.hot_target_bytes < hot_used_bytes idx
      → ((evict_loop stopped disks i m idx cands).1 ≡ moved_all disks i idx cands)
        × ((evict_loop stopped disks i m idx cands).2 ≡ ok tt)
        × (tried (evict_loop stopped disks i m idx cands).0 ≡ tried m + length cands)
        × ((evict_loop stopped disks i m idx cands).0.moves_ok
            ≡ m.moves_ok + moves_made disks i idx cands)
        × (hot_used_bytes (moved_all disks i idx cands) ≡ hot_used_bytes idx)
  unfolding evict_loop
  evict_loop-moved_all stopped disks i m idx [] run above =
      (refl, refl, omega arith, omega arith, refl)
  evict_loop-moved_all stopped disks i m idx (c ∷ cands) run above =
      let x : Index p × Result (Unit {0}) = move (disks i) idx c.inode c.stripe_id tier_cold in
      let same : hot_used_bytes x.0 ≡ hot_used_bytes idx =
        hot_used_bytes-hot x.0 idx (move-hot (disks i) idx c.inode c.stripe_id) in
      let high : leb (hot_used_bytes idx) m.hot_target_bytes ≡ false = ground (arith, above) in
      let (moved, fine, all, made, usage) =
        evict_loop-moved_all stopped disks (suc i) (counted m c x.1) x.0 cands run
          (omega (arith, above, same, counted-target m c x.1)) in
      rw (run i, high, evict_loop)
        (
          moved,
          fine,
          omega (arith, all, counted_one_more m c x.1),
          omega (arith, made, counted-moves_ok m c x.1),
          usage ∙ same,
        )
