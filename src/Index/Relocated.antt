-- ===== src/Index/Relocated.antt =====
-- Move: what the database holds of the stripe after the commit.
use place.Common.{
  ℕ, suc, ◌+◌, ◌^◌, ◌<◌, ◌≡◌, refl, sym, ap, ◌∙◌, false, List, [], ◌∷◌, Option, none, some, arith,
  All, All-map, ◌==◌, length, inl, inr,
}
use place.Errors.{Result, ok, err, Result-cases}
use place.Keys.{fragment_key, fragment_stripe_prefix, prefix_upper_bound}
use place.Fragment.{Fragment, encode_fragments, canonical_view}
use place.Kv.{Pebble, Batch, Bytes, new_batch, commit}
use place.Kv.Entries.{entry, range}
use place.Kv.Entries.Lookup.{last_op, entry-apply_ops, entry-range}
use place.Kv.Names.{in_prefix_range}
use place.Kv.Laws.{Laws, iter_lem, commit_lem}
use place.Index.{Index, delete_all, commit_index, fragments_in}
use place.Index.Append.{Disk}
use place.Index.Move.{fragment_keys, set_fragments, move_fragments, move}
use place.Index.Forget.{unless_found}
use place.Index.Staging.{Ready, along}
use place.Index.Moved.{AllMoved, Rises, move_fragments-Done}
use place.Index.Rekeyed.{
  Rises-small, last_op-set_fragments_other, last_op-set_fragments, last_op-delete_fragment_keys,
  unless_found-same, fragment_key-named, fragment_key-has_prefix, fragment_key-IsByte,
  fragment_stripe_prefix-IsByte,
}

module _ {p : Pebble} (laws : Laws p) (disk : Disk) (idx idx' : Index p) (inode st target : ℕ) where
  -- The entries of the stripe before the move.
  abbrev pub stripe_entries : List (Bytes × Bytes)
  stripe_entries =
      range (laws.entries idx.db) (fragment_stripe_prefix inode st)
        (prefix_upper_bound (fragment_stripe_prefix inode st))

  abbrev after_move : Index p × Result (List Fragment) → Index p × Result (Unit {0})
  after_move (mid, err e) = (mid, err e)
  after_move (mid, ok gs) =
      commit_index mid
        (set_fragments inode st (delete_all new_batch (fragment_keys stripe_entries)) gs)

  move-after_move :
      (f : Fragment) (frags : List Fragment)
      → fragments_in stripe_entries ≡ f ∷ frags
      → move disk idx inode st target
        ≡ after_move (move_fragments disk 0 idx inode st target (canonical_view (f ∷ frags)) [])
  unfolding move
  move-after_move f frags some_there =
      rw (iter_lem p laws idx.db (fragment_stripe_prefix inode st) _, move)
        (rw some_there
          (elim (Result-cases
            (move_fragments disk 0 idx inode st target (canonical_view (f ∷ frags)) []).1) [
              | inl (gs, moved) ↦ rw moved refl
              | inr (e, failed) ↦ rw failed refl
            ]))

  -- The scan finds each key of the stripe.
  found_key :
      (q : ℕ)
      → entry stripe_entries (fragment_key inode st q)
        ≡ entry (laws.entries idx.db) (fragment_key inode st q)
  found_key q =
      entry-range (laws.entries idx.db) (fragment_stripe_prefix inode st) _
        (fragment_key inode st q)
      ∙ rw
          (
            in_prefix_range (fragment_stripe_prefix inode st) (fragment_key inode st q)
                (fragment_stripe_prefix-IsByte inode st) (fragment_key-IsByte inode st q),
            fragment_key-has_prefix inode st q,
          )
          refl

  AllMoved-db :
      (mid : Index p) (db : p.Db) (fs gs : List Fragment)
      → AllMoved target idx mid fs gs
      → AllMoved target idx (record mid { db = db }) fs gs
  AllMoved-db mid db [] gs h = h
  AllMoved-db mid db (f ∷ fs) gs (g, rest, same, moved, more) =
      (g, rest, same, moved, AllMoved-db mid db fs rest more)

  -- The new fragments are stored under their numbers, and nothing is under another of the stripe.
  abbrev pub Stored : List Fragment → Type 0
  Stored gs =
      All
        (λ g.
          entry (laws.entries idx'.db) (fragment_key inode st g.seq)
          ≡ some (encode_fragments (g ∷ [])))
        gs
      × ((q : ℕ)
          → q < 2 ^ 64
          → All (λ g. (g.seq == q) ≡ false) gs
          → entry (laws.entries idx'.db) (fragment_key inode st q) ≡ none)

  abbrev deletions : Batch
  deletions = delete_all new_batch (fragment_keys stripe_entries)

  commit_entry :
      (mid : Index p) (b : Batch) (k : Bytes)
      → mid.db ≡ idx.db
      → commit_index mid b ≡ (idx', ok tt)
      → entry (laws.entries idx'.db) k ≡ last_op b k (entry (laws.entries idx.db) k)
  commit_entry mid b k same e =
      let committed : commit p mid.db b ≡ (idx'.db, ok tt) = λ i. ((e i).0.db, (e i).1) in
      ap (λ m. entry m k) (commit_lem p laws mid.db idx'.db b committed)
      ∙ entry-apply_ops b (laws.entries mid.db) k
      ∙ ap (λ db. last_op b k (entry (laws.entries db) k)) same

  deleted_key :
      (q : ℕ)
      → last_op deletions
          (fragment_key inode st q)
          (entry (laws.entries idx.db) (fragment_key inode st q))
        ≡ none
  unfolding last_op
  deleted_key q =
      let k : Bytes = fragment_key inode st q in
      let o : Option Bytes = entry (laws.entries idx.db) k in
      last_op-delete_fragment_keys stripe_entries new_batch k o (fragment_key-named inode st q)
      ∙ ap (λ x. unless_found x o) (found_key q)
      ∙ unless_found-same o

  after_move-Stored :
      (mid : Index p) (gs : List Fragment)
      → mid.db ≡ idx.db
      → Rises idx.seq_gen gs
      → idx.seq_gen + length gs < 2 ^ 64
      → after_move (mid, ok gs) ≡ (idx', ok tt)
      → Stored gs
  after_move-Stored mid gs same rises room e = (
    All-map gs
        (λ g h.
          commit_entry mid (set_fragments inode st deletions gs) (fragment_key inode st g.seq) same
            e
          ∙ h)
        (last_op-set_fragments inode st idx.seq_gen gs deletions (entry (laws.entries idx.db)) rises
          room),
    λ q small other.
        commit_entry mid (set_fragments inode st deletions gs) (fragment_key inode st q) same e
        ∙ last_op-set_fragments_other inode st q gs deletions _ small
            (Rises-small idx.seq_gen gs rises room) other
        ∙ deleted_key q,
  )

  AllMoved-length :
      (mid : Index p) (fs gs : List Fragment)
      → AllMoved target idx mid fs gs
      → length gs ≡ length fs
  AllMoved-length mid [] gs h = rw h refl
  AllMoved-length mid (f ∷ fs) gs (g, rest, same, moved, more) =
      rw same (ap suc (AllMoved-length mid fs rest more))

  -- Move of a stripe that has fragments, where it succeeds, replaces what is stored of the stripe by
  -- one fragment for each of the canonical view, in order, under the next sequence numbers. Each is in
  -- the target tier, has the extent of the one it replaces, and reads as that one did before. The
  -- sequence numbers and the segment ids do not run out, every open segment's count is its file's
  -- length, and a fragment is shorter than 2^32 bytes.
  pub move-Stored :
      (f : Fragment) (frags : List Fragment)
      → fragments_in stripe_entries ≡ f ∷ frags
      → Ready (length (canonical_view (f ∷ frags))) idx
      → idx.seq_gen + length (canonical_view (f ∷ frags)) < 2 ^ 64
      → All (λ g. g.length < 2 ^ 32) (canonical_view (f ∷ frags))
      → move disk idx inode st target ≡ (idx', ok tt)
      → (gs : List Fragment) × AllMoved target idx idx' (canonical_view (f ∷ frags)) gs
        × Rises idx.seq_gen gs
        × Stored gs
  move-Stored f frags there ready room small done =
      let view : List Fragment = canonical_view (f ∷ frags) in
      let x : Index p × Result (List Fragment) =
        move_fragments disk 0 idx inode st target view [] in
      let begun : after_move x ≡ (idx', ok tt) = sym (move-after_move f frags there) ∙ done in
      elim (Result-cases x.1) [
        | inr (e, failed) ↦
            absurd (ground (arith, ap after_move (λ j. (x.0, sym failed j)) ∙ begun))
        | inl (out, moved) ↦
            let (gs, same, all, rises, kept) =
              move_fragments-Done disk 0 idx x.0 inode st target view [] out ready room small
                (λ j. (x.0, moved j)) in
            let finished : after_move (x.0, ok gs) ≡ (idx', ok tt) =
              ap after_move (λ j. (x.0, ok (sym same j)))
              ∙ ap after_move (λ j. (x.0, sym moved j))
              ∙ begun in
            (
              gs,
              along (λ z. AllMoved target idx z view gs) (λ j. (finished j).0)
                  (AllMoved-db x.0 (commit p x.0.db (set_fragments inode st deletions gs)).0 view gs
                    all),
              rises,
              after_move-Stored x.0 gs kept.0 rises
                  (omega (arith, room, AllMoved-length x.0 view gs all)) finished,
            )
      ]
