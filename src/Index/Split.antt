-- ===== src/Index/Split.antt =====
-- migrateBlobsToFragments: what the scan collects.
use mathlib.Core.List.{append-nil, append_assoc}
use place.Common.{
  ℕ, ◌≤◌, ◌≡◌, refl, sym, ap, ◌∙◌, List, [], ◌∷◌, ◌++◌, map, arith, All, All-map, if◌then◌else◌,
  Bool-cases, inl, inr,
}
use place.Keys.{
  fragment_key, is_fragment_key, is_legacy_stripe_key, stripe_inode_from_fragment_key,
  stripe_id_from_fragment_key, seq_from_fragment_key,
}
use place.Fragment.{Fragment, decode_fragments, encode_fragments}
use place.Kv.{Bytes}
use place.Index.Migrate.{Legacy, add_legacy, scan_legacy, max_of_seq}

-- The keys of the blobs, and a key and a value for each fragment of a blob.
abbrev pub blob_keys : List (Bytes × Bytes) → List Bytes
blob_keys [] = []
blob_keys ((k, v) ∷ l) = if is_legacy_stripe_key k then k ∷ blob_keys l else blob_keys l

abbrev pub sets_of : ℕ → ℕ → List Fragment → List (Bytes × Bytes)
sets_of inode stripe_id [] = []
sets_of inode stripe_id (f ∷ fs) =
    (fragment_key inode stripe_id f.seq, encode_fragments (f ∷ [])) ∷ sets_of inode stripe_id fs

abbrev sets_of_blob : Bytes → Bytes → List (Bytes × Bytes)
sets_of_blob k v =
    sets_of (stripe_inode_from_fragment_key k) (stripe_id_from_fragment_key k) (decode_fragments v)

abbrev pub blob_sets : List (Bytes × Bytes) → List (Bytes × Bytes)
blob_sets [] = []
blob_sets ((k, v) ∷ l) =
    if is_legacy_stripe_key k then sets_of_blob k v ++ blob_sets l else blob_sets l

-- The seqs of an entry: those of a blob's fragments, or the one in a fragment's key.
abbrev pub seqs_of : Bytes × Bytes → List ℕ
seqs_of (k, v) =
    if is_legacy_stripe_key k
    then map (λ f. f.seq) (decode_fragments v)
    else if is_fragment_key k
    then seq_from_fragment_key k ∷ []
    else []

max_of_seq-le : (m s : ℕ) → (m ≤ max_of_seq m s) × (s ≤ max_of_seq m s)
max_of_seq-le m s = (ground arith, ground arith)

add_legacy_lem :
    (inode st : ℕ) (fs : List Fragment) (l : Legacy)
    → ((add_legacy inode st fs l).legacy_keys ≡ l.legacy_keys)
      × ((add_legacy inode st fs l).new_sets ≡ l.new_sets ++ sets_of inode st fs)
      × (l.max_seq ≤ (add_legacy inode st fs l).max_seq)
      × All (λ s. s ≤ (add_legacy inode st fs l).max_seq) (map (λ f. f.seq) fs)
unfolding add_legacy
add_legacy_lem inode st [] l = (refl, sym (append-nil l.new_sets), omega arith, tt)
add_legacy_lem inode st (f ∷ fs) l =
    let (keys, sets, grows, all) = add_legacy_lem inode st fs (record l {
      new_sets = l.new_sets ++ (fragment_key inode st f.seq, encode_fragments (f ∷ [])) ∷ [];
      max_seq = max_of_seq l.max_seq f.seq;
    }) in
    let (old, new) = max_of_seq-le l.max_seq f.seq in
    (
      keys,
      sets ∙ append_assoc l.new_sets _ (sets_of inode st fs),
      omega (arith, old, grows),
      (omega (arith, new, grows), all),
    )

-- One entry: what it adds, and the entries after it.
abbrev with_entry : Bytes → Bytes → Legacy → Legacy
with_entry k v l =
    if is_legacy_stripe_key k
    then add_legacy (stripe_inode_from_fragment_key k) (stripe_id_from_fragment_key k)
        (decode_fragments v) (record l { legacy_keys = l.legacy_keys ++ k ∷ [] })
    else if is_fragment_key k
    then record l { max_seq = max_of_seq l.max_seq (seq_from_fragment_key k) }
    else l

with_entry_lem :
    (k v : Bytes) (l : Legacy) (rest : List (Bytes × Bytes))
    → ((with_entry k v l).legacy_keys ++ blob_keys rest
        ≡ l.legacy_keys ++ blob_keys ((k, v) ∷ rest))
      × ((with_entry k v l).new_sets ++ blob_sets rest ≡ l.new_sets ++ blob_sets ((k, v) ∷ rest))
      × (l.max_seq ≤ (with_entry k v l).max_seq)
      × All (λ s. s ≤ (with_entry k v l).max_seq) (seqs_of (k, v))
with_entry_lem k v l rest = elim (Bool-cases (is_legacy_stripe_key k)) [
  | inl blob ↦
      let (keys, sets, grows, all) =
        add_legacy_lem (stripe_inode_from_fragment_key k) (stripe_id_from_fragment_key k)
          (decode_fragments v) (record l { legacy_keys = l.legacy_keys ++ k ∷ [] }) in
      rw blob (
        ap (◌++ blob_keys rest) keys ∙ append_assoc l.legacy_keys (k ∷ []) (blob_keys rest),
        ap (◌++ blob_sets rest) sets ∙ append_assoc l.new_sets (sets_of_blob k v) (blob_sets rest),
        grows,
        all,
      )
  | inr other ↦ elim (Bool-cases (is_fragment_key k)) [
    | inl named ↦
        let (old, new) = max_of_seq-le l.max_seq (seq_from_fragment_key k) in
        rw (other, named) (refl, refl, old, (new, tt))
    | inr unknown ↦ rw (other, unknown) (refl, refl, omega arith, tt)
  ]
]

-- The scan collects the keys of the blobs, a write for each of their fragments, and the largest seq.
pub scan_legacy_lem :
    (entries : List (Bytes × Bytes)) (l : Legacy)
    → ((scan_legacy entries l).legacy_keys ≡ l.legacy_keys ++ blob_keys entries)
      × ((scan_legacy entries l).new_sets ≡ l.new_sets ++ blob_sets entries)
      × (l.max_seq ≤ (scan_legacy entries l).max_seq)
      × All (λ e. All (λ s. s ≤ (scan_legacy entries l).max_seq) (seqs_of e)) entries
unfolding scan_legacy
scan_legacy_lem [] l = (sym (append-nil _), sym (append-nil _), omega arith, tt)
scan_legacy_lem ((k, v) ∷ rest) l =
    let (keys, sets, grows, here) = with_entry_lem k v l rest in
    let (keys', sets', grows', all) = scan_legacy_lem rest (with_entry k v l) in
    (
      keys' ∙ keys,
      sets' ∙ sets,
      omega (arith, grows, grows'),
      (All-map (seqs_of (k, v)) (λ s le. omega (arith, le, grows')) here, all),
    )
