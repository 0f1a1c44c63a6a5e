-- ===== src/Index/Moved.antt =====
-- Move's loop over the canonical view: the new fragments, in order.
use mathlib.Core.List.{append_assoc, append-nil}
use place.Common.{
  ℕ, suc, ◌+◌, ◌^◌, ◌<◌, ◌≡◌, refl, sym, ap, ◌∙◌, false, List, [], ◌∷◌, ◌++◌, arith, All, ◌==◌,
  Bool-cases, inl, inr, length, ==_iff,
}
use place.Errors.{Error, Result, ok, err, ok_inj, Result-cases}
use place.Fragment.{Fragment}
use place.Kv.{Pebble}
use place.Index.{Index, bump_seq}
use place.Index.Append.{Disk}
use place.Index.Move.{copy_fragment, move_fragments}
use place.Index.Staging.{Ready, Keeps, Keeps-trans, along}
use place.Index.Copied.{Moved, copy_fragment-Moved}

-- The sequence numbers go up by one from `gen`.
abbrev pub Rises : ℕ → List Fragment → Type 0
Rises gen [] = Unit {0}
Rises gen (g ∷ gs) = (g.seq ≡ gen + 1) × Rises (gen + 1) gs

module _ {p : Pebble} where
  abbrev pub AllMoved : ℕ → Index p → Index p → List Fragment → List Fragment → Type 0
  AllMoved target idx idx' [] gs = gs ≡ []
  AllMoved target idx idx' (f ∷ fs) gs =
      (g : Fragment) × (rest : List Fragment) × (gs ≡ g ∷ rest)
      × Moved target idx idx' f g
      × AllMoved target idx idx' fs rest

  Keeps-refl : (idx : Index p) → Keeps idx idx
  Keeps-refl idx = (refl, refl, λ tier id off payload r. r)

  Moved-between :
      (target : ℕ) (idx mid mid' idx' : Index p) (f g : Fragment)
      → Keeps idx mid
      → Moved target mid mid' f g
      → Keeps mid' idx'
      → Moved target idx idx' f g
  Moved-between target idx mid mid' idx' f g h (off, len, tier, reads) k = (
    off,
    len,
    tier,
    λ bytes long there.
        k.2 g.tier g.segment_id g.segment_offset bytes
          (reads bytes long (h.2 f.tier f.segment_id f.segment_offset bytes there)),
  )

  AllMoved-after :
      (target : ℕ) (idx mid idx' : Index p) (fs gs : List Fragment)
      → Keeps idx mid
      → AllMoved target mid idx' fs gs
      → AllMoved target idx idx' fs gs
  AllMoved-after target idx mid idx' [] gs h m = m
  AllMoved-after target idx mid idx' (f ∷ fs) gs h (g, rest, same, moved, more) = (
    g,
    rest,
    same,
    Moved-between target idx mid idx' idx' f g h moved (Keeps-refl idx'),
    AllMoved-after target idx mid idx' fs rest h more,
  )

  Keeps-bump_seq : (idx : Index p) → Keeps idx (bump_seq idx)
  Keeps-bump_seq idx = (refl, refl, λ tier id off payload r. r)

  bump_seq-Ready : (k : ℕ) (idx : Index p) → Ready k idx → Ready k (bump_seq idx)
  bump_seq-Ready k idx r = record {
    hot_sound = r.hot_sound;
    cold_sound = r.cold_sound;
    hot_room = r.hot_room;
    cold_room = r.cold_room;
  }

  Ready-less : (k : ℕ) (idx : Index p) → Ready (suc k) idx → Ready k idx
  Ready-less k idx r = record {
    hot_sound = r.hot_sound;
    cold_sound = r.cold_sound;
    hot_room = omega (arith, r.hot_room);
    cold_room = omega (arith, r.cold_room);
  }

  -- What the loop leaves for a view, from an index on.
  abbrev Done : ℕ → Index p → Index p → List Fragment → List Fragment → List Fragment → Type 0
  Done target idx idx' view new_frags out =
      (ys : List Fragment) × (out ≡ new_frags ++ ys)
      × AllMoved target idx idx' view ys
      × Rises idx.seq_gen ys
      × Keeps idx idx'

  Done-step :
      (target : ℕ) (idx mid idx' : Index p) (f g : Fragment) (view new_frags out : List Fragment)
      → Keeps idx mid
      → mid.seq_gen ≡ idx.seq_gen + 1
      → g.seq ≡ idx.seq_gen + 1
      → Moved target idx mid f g
      → Done target mid idx' view (new_frags ++ g ∷ []) out
      → Done target idx idx' (f ∷ view) new_frags out
  Done-step target idx mid idx' f g view new_frags out h gen seq moved
        (ys, same, more, rises, kept) =
      (
        g ∷ ys,
        same ∙ append_assoc new_frags (g ∷ []) ys,
        (
          g,
          ys,
          refl,
          Moved-between target idx idx mid idx' f g (Keeps-refl idx) moved kept,
          AllMoved-after target idx mid idx' view ys h more,
        ),
        (seq, along (λ n. Rises n ys) gen rises),
        Keeps-trans idx mid idx' h kept,
      )

  abbrev next_copy :
      Disk
      → ℕ
      → ℕ
      → ℕ
      → ℕ
      → List Fragment
      → List Fragment
      → Index p × Result Fragment
      → Index p × Result (List Fragment)
  next_copy disk i inode stripe_id target view new_frags (mid, err e) = (mid, err e)
  next_copy disk i inode stripe_id target view new_frags (mid, ok g) =
      move_fragments disk (suc i) mid inode stripe_id target view (new_frags ++ g ∷ [])

  move_fragments-next_copy :
      (disk : Disk) (i : ℕ) (idx : Index p) (inode stripe_id target : ℕ) (f : Fragment)
      (view new_frags : List Fragment)
      → (f.tier == target) ≡ false
      → next_copy disk i inode stripe_id target view new_frags
          (copy_fragment disk i (bump_seq idx) inode stripe_id target (bump_seq idx).seq_gen f)
        ≡ move_fragments disk i idx inode stripe_id target (f ∷ view) new_frags
  unfolding move_fragments
  move_fragments-next_copy disk i idx inode stripe_id target f view new_frags other =
      rw (other, move_fragments) refl

  not_failed :
      (idx idx' : Index p) (x : Error) (out : List Fragment)
      → ◌≡◌ {A = Index p × Result (List Fragment)} (idx, err x) (idx', ok out)
      → ⊥
  not_failed idx idx' x out h = ground arith

  pub move_fragments-Done :
      (disk : Disk) (i : ℕ) (idx idx' : Index p) (inode stripe_id target : ℕ)
      (view new_frags out : List Fragment)
      → Ready (length view) idx
      → idx.seq_gen + length view < 2 ^ 64
      → All (λ f. f.length < 2 ^ 32) view
      → move_fragments disk i idx inode stripe_id target view new_frags ≡ (idx', ok out)
      → Done target idx idx' view new_frags out
  unfolding move_fragments
  move_fragments-Done disk i idx idx' inode stripe_id target [] new_frags out ready room small
        done =
      (
        [],
        sym (ok_inj _ out (λ j. (done j).1)) ∙ sym (append-nil new_frags),
        refl,
        tt,
        along (Keeps idx) (λ j. (done j).0) (Keeps-refl idx),
      )
  move_fragments-Done disk i idx idx' inode stripe_id target (f ∷ view) new_frags out ready room
        small done =
      let gen : (bump_seq idx).seq_gen ≡ idx.seq_gen + 1 = omega arith in
      elim (Bool-cases (f.tier == target)) [
        | inl here ↦
            Done-step target idx (bump_seq idx) idx' f (record f { seq = (bump_seq idx).seq_gen })
              view new_frags out (Keeps-bump_seq idx) gen gen
              (refl, refl, (==_iff f.tier target).0 here, λ bytes long there. there)
              (move_fragments-Done disk (suc i) (bump_seq idx) idx' inode stripe_id target view _
                out (bump_seq-Ready (length view) idx (Ready-less (length view) idx ready))
                (omega (arith, gen)) small.1 (rw (here, move_fragments) at done))
        | inr other ↦
            let x : Index p × Result Fragment =
              copy_fragment disk i (bump_seq idx) inode stripe_id target (bump_seq idx).seq_gen f in
            let next : Index p × Result Fragment → Index p × Result (List Fragment) =
              next_copy disk i inode stripe_id target view new_frags in
            let begun : next x ≡ (idx', ok out) =
              move_fragments-next_copy disk i idx inode stripe_id target f view new_frags other
              ∙ done in
            elim (Result-cases x.1) [
              | inr (failure, failed) ↦
                  absurd
                    (not_failed x.0 idx' failure out (ap next (λ j. (x.0, sym failed j)) ∙ begun))
              | inl (g, copied) ↦
                  let (ready', kept, gen', seq, moved) =
                    copy_fragment-Moved disk i (length view) (bump_seq idx) x.0 inode stripe_id
                      target (bump_seq idx).seq_gen f g
                      (bump_seq-Ready (suc (length view)) idx ready) small.0
                      (λ j. (x.0, copied j)) in
                  Done-step target idx x.0 idx' f g view new_frags out
                    (Keeps-trans idx (bump_seq idx) x.0 (Keeps-bump_seq idx) kept) (gen' ∙ gen)
                    (seq ∙ gen)
                    (Moved-between target idx (bump_seq idx) x.0 x.0 f g (Keeps-bump_seq idx) moved
                      (Keeps-refl x.0))
                    (move_fragments-Done disk (suc i) x.0 idx' inode stripe_id target view _ out
                      ready' (omega (arith, gen, gen')) small.1
                      (ap next (λ j. (x.0, sym copied j)) ∙ begun))
            ]
      ]
