-- ===== src/Index/Migrate.antt =====
-- index/index.go, migrateBlobsToFragments: legacy blobs of fragments become one key for each fragment.
use place.Common.{
  ℕ, ◌+◌, ◌%◌, ◌^◌, Bool, true, false, ◌&&◌, List, [], ◌∷◌, ◌++◌, ltb, ◌==◌, if◌then◌else◌,
}
use place.Errors.{Result, ok, err}
use place.Keys.{
  fragment_key, stripe_all_prefix, prefix_upper_bound, is_fragment_key, is_legacy_stripe_key,
  stripe_inode_from_fragment_key, stripe_id_from_fragment_key, seq_from_fragment_key,
}
use place.Fragment.{Fragment, decode_fragments, encode_fragments}
use place.Kv.{Bytes, Pebble, Batch, new_batch, set, iter}
use place.Index.{Index, commit_index, delete_all}

-- What the scan collects.
pub record Legacy : Type 0 where
  pub legacy_keys : List Bytes
  pub new_sets : List (Bytes × Bytes)
  pub max_seq : ℕ

abbrev pub max_of_seq : ℕ → ℕ → ℕ
max_of_seq m s = if ltb m s then s else m

unfoldable pub add_legacy : ℕ → ℕ → List Fragment → Legacy → Legacy
add_legacy inode stripe_id [] l = l
add_legacy inode stripe_id (f ∷ fs) l = add_legacy inode stripe_id fs (record l {
  new_sets = l.new_sets ++ (fragment_key inode stripe_id f.seq, encode_fragments (f ∷ [])) ∷ [];
  max_seq = max_of_seq l.max_seq f.seq;
})

unfoldable pub scan_legacy : List (Bytes × Bytes) → Legacy → Legacy
scan_legacy [] l = l
scan_legacy ((k, v) ∷ rest) l = scan_legacy rest (
    if is_legacy_stripe_key k
    then add_legacy (stripe_inode_from_fragment_key k) (stripe_id_from_fragment_key k)
        (decode_fragments v) (record l { legacy_keys = l.legacy_keys ++ k ∷ [] })
    else if is_fragment_key k
    then record l { max_seq = max_of_seq l.max_seq (seq_from_fragment_key k) }
    else l)

abbrev pub no_legacy : Legacy
no_legacy = record { legacy_keys = []; new_sets = []; max_seq = 0 }

unfoldable pub set_all : Batch → List (Bytes × Bytes) → Batch
set_all b [] = b
set_all b ((k, v) ∷ sets) = set_all (set b k v) sets

-- The counter goes past the largest seq that was found.
unfoldable pub seed_seq : ℕ → ℕ → ℕ
seed_seq seq_gen max_seq = if ltb max_seq seq_gen then seq_gen else (max_seq + 1) % 2 ^ 64

abbrev pub is_nil {ℓ} : {A : Type ℓ} → List A → Bool
is_nil [] = true
is_nil (a ∷ l) = false

module _ {p : Pebble} where
  unfoldable pub migrate_blobs_to_fragments : Index p → Index p × Result (Unit {0})
  migrate_blobs_to_fragments idx =
      elim (iter p idx.db stripe_all_prefix (prefix_upper_bound stripe_all_prefix)) [
        | err e ↦ (idx, err e)
        | ok entries ↦
            let l = scan_legacy entries no_legacy in
            let seeded : Index p = record idx { seq_gen = seed_seq idx.seq_gen l.max_seq } in
            if is_nil l.legacy_keys && l.max_seq == 0
            then (idx, ok tt)
            else if is_nil l.legacy_keys
            then (seeded, ok tt)
            else commit_index seeded (delete_all (set_all new_batch l.new_sets) l.legacy_keys)
      ]
