-- ===== src/Index/Migrated.antt =====
-- migrateBlobsToFragments: what the database and the sequence counter are after it.
use place.Common.{
  ℕ, ◌+◌, ◌^◌, ◌≤◌, ◌<◌, ◌≡◌, refl, sym, ap, ◌∙◌, true, List, [], ◌∷◌, Option, none, arith, All,
  All-map, ltb, ◌==◌, if◌then◌else◌, Bool-cases, inl, inr, eq_of_==,
}
use place.Errors.{ok}
use place.Keys.{stripe_all_prefix, prefix_upper_bound, is_legacy_stripe_key}
use place.Kv.{Bytes, Pebble, Batch, new_batch, commit}
use place.Kv.Entries.{entry, range}
use place.Kv.Entries.Lookup.{last_op, entry-apply_ops, entry-range}
use place.Kv.Laws.{Laws, iter_lem, commit_lem}
use place.Index.{Index, delete_all}
use place.Index.Migrate.{
  no_legacy, scan_legacy, set_all, seed_seq, is_nil, migrate_blobs_to_fragments,
}
use place.Index.Split.{blob_keys, blob_sets, seqs_of, scan_legacy_lem}
use place.Index.Conversion.{
  any_key, last_op-delete_keys, any_blob_key, no_blob_keys, Single, found_or, last_op-set_all,
  entry-blob_sets,
}

seed_seq-above : (seq_gen max_seq : ℕ) → max_seq + 1 < 2 ^ 64 → max_seq < seed_seq seq_gen max_seq
unfolding seed_seq
seed_seq-above seq_gen max_seq h = elim (Bool-cases (ltb max_seq seq_gen)) [
  | inl above ↦ rw above (ground (arith, above))
  | inr below ↦ rw below (omega arith)
]

seqs_below :
    (n gen : ℕ) (l : List (Bytes × Bytes))
    → All (λ e. All (λ s. s ≤ n) (seqs_of e)) l
    → n < gen
    → All (λ e. All (λ s. s < gen) (seqs_of e)) l
seqs_below n gen l h below =
    All-map l (λ e le. All-map (seqs_of e) (λ s le'. omega (arith, below, le')) le) h

no_blobs : (l : List (Bytes × Bytes)) → is_nil (blob_keys l) ≡ true → blob_sets l ≡ []
no_blobs [] h = refl
no_blobs ((k, v) ∷ l) h = elim (Bool-cases (is_legacy_stripe_key k)) [
  | inl blob ↦ absurd (ground (arith, rw blob at h))
  | inr other ↦ rw other (no_blobs l (rw other at h))
]

nil_of_is_nil : (ks : List Bytes) → is_nil ks ≡ true → ks ≡ []
nil_of_is_nil [] h = refl
nil_of_is_nil (k ∷ ks) h = absurd (ground arith)

abbrev pub stripes : {p : Pebble} → Laws p → p.Db → List (Bytes × Bytes)
stripes laws db = range (laws.entries db) stripe_all_prefix (prefix_upper_bound stripe_all_prefix)

module _ {p : Pebble} (laws : Laws p) (idx : Index p) where
  abbrev scanned : List (Bytes × Bytes)
  scanned = stripes laws idx.db

  -- What a key has afterwards: nothing under a blob's key, a blob's fragment under its own key,
  -- and what it had under every other key.
  abbrev pub converted : Bytes → Option Bytes
  converted q =
      if any_key (blob_keys scanned) q
      then none
      else found_or (entry (blob_sets scanned) q) (entry (laws.entries idx.db) q)

  converted-none :
      is_nil (blob_keys scanned) ≡ true → (q : Bytes) → entry (laws.entries idx.db) q ≡ converted q
  unfolding entry
  converted-none nothing q =
      rw (no_blobs scanned nothing, nil_of_is_nil (blob_keys scanned) nothing) refl

  abbrev conversion : Batch
  conversion = delete_all (set_all new_batch (blob_sets scanned)) (blob_keys scanned)

  entry-conversion :
      (db' : p.Db)
      → Single (blob_sets scanned)
      → commit p idx.db conversion ≡ (db', ok tt)
      → (q : Bytes) → entry (laws.entries db') q ≡ converted q
  unfolding last_op
  entry-conversion db' single done q =
      ap (λ m. entry m q) (commit_lem p laws idx.db db' conversion done)
      ∙ entry-apply_ops conversion (laws.entries idx.db) q
      ∙ last_op-delete_keys (blob_keys scanned) _ q (entry (laws.entries idx.db) q)
      ∙ rw (last_op-set_all (blob_sets scanned) new_batch q (entry (laws.entries idx.db) q) single)
          refl

  -- No blob is left for another scan.
  blob_keys-converted :
      (idx' : Index p)
      → ((q : Bytes) → entry (laws.entries idx'.db) q ≡ converted q)
      → blob_keys (stripes laws idx'.db) ≡ []
  blob_keys-converted idx' after = no_blob_keys (stripes laws idx'.db) (λ q legacy.
      entry-range (laws.entries idx'.db) stripe_all_prefix _ q
      ∙ rw (after q, entry-blob_sets scanned q legacy)
          (elim (Bool-cases (any_key (blob_keys scanned) q)) [
            | inl deleted ↦ rw deleted (ground arith)
            | inr absent ↦ rw absent (
                sym (entry-range (laws.entries idx.db) stripe_all_prefix _ q)
                ∙ any_blob_key scanned q legacy absent)
          ]))

  -- A migration that returns nil, of fragments with a key each, has turned the database into
  -- `converted`, leaves no blob for another, and has put the counter past every seq it read.
  pub migrate_blobs_to_fragments-converted :
      (idx' : Index p) (q : Bytes)
      → 0 < idx.seq_gen
      → (scan_legacy scanned no_legacy).max_seq + 1 < 2 ^ 64
      → Single (blob_sets scanned)
      → migrate_blobs_to_fragments idx ≡ (idx', ok tt)
      → (entry (laws.entries idx'.db) q ≡ converted q)
        × (blob_keys (stripes laws idx'.db) ≡ [])
        × All (λ e. All (λ s. s < idx'.seq_gen) (seqs_of e)) scanned
  unfolding migrate_blobs_to_fragments
  migrate_blobs_to_fragments-converted idx' q positive small single done =
      let found = scan_legacy scanned no_legacy in
      let (keys, sets, _, seqs) = scan_legacy_lem scanned no_legacy in
      let run =
        rw
          (
            migrate_blobs_to_fragments,
            iter_lem p laws idx.db stripe_all_prefix (prefix_upper_bound stripe_all_prefix),
          )
          at done in
      let below = λ (gen : ℕ). seqs_below found.max_seq gen scanned seqs in
      let above = seed_seq-above idx.seq_gen found.max_seq small in
      elim (Bool-cases (is_nil found.legacy_keys)) [
        | inl nothing ↦
            let unchanged = converted-none (ap is_nil (sym keys) ∙ nothing) in
            elim (Bool-cases (found.max_seq == 0)) [
              | inl unused ↦ rw (← ap (λ r. r.0) (rw (nothing, unused) at run)) (
                unchanged q,
                blob_keys-converted idx unchanged,
                below idx.seq_gen (omega (arith, positive, eq_of_== _ _ unused)),
              )
              | inr used ↦
                  rw (← ap (λ r. r.0) (rw (nothing, used) at run))
                    (unchanged q, blob_keys-converted idx unchanged, below _ above)
            ]
        | inr blobs ↦
            let moved = rw (blobs, keys, sets) at run in
            let changed = entry-conversion idx'.db single (ap (λ r. (r.0.db, r.1)) moved) in
            (
              changed q,
              blob_keys-converted idx' changed,
              rw (← ap (λ r. r.0.seq_gen) moved) (below _ above),
            )
      ]

  -- The sets of segments stay as they are.
  pub migrate_blobs_to_fragments-sets :
      (idx' : Index p)
      → migrate_blobs_to_fragments idx ≡ (idx', ok tt)
      → (idx.hot ≡ idx'.hot) × (idx.cold ≡ idx'.cold)
  unfolding migrate_blobs_to_fragments
  migrate_blobs_to_fragments-sets idx' done =
      let found = scan_legacy scanned no_legacy in
      let run =
        rw
          (
            migrate_blobs_to_fragments,
            iter_lem p laws idx.db stripe_all_prefix (prefix_upper_bound stripe_all_prefix),
          )
          at done in
      elim (Bool-cases (is_nil found.legacy_keys)) [
        | inr blobs ↦
            let moved = rw blobs at run in (ap (λ r. r.0.hot) moved, ap (λ r. r.0.cold) moved)
        | inl nothing ↦ elim (Bool-cases (found.max_seq == 0)) [
          | inl unused ↦
              let same = rw (nothing, unused) at run in
              (ap (λ r. r.0.hot) same, ap (λ r. r.0.cold) same)
          | inr used ↦
              let same = rw (nothing, used) at run in
              (ap (λ r. r.0.hot) same, ap (λ r. r.0.cold) same)
        ]
      ]
