-- ===== src/Index/Conversion.antt =====
-- migrateBlobsToFragments: the writes of its batch.
use place.Common.{
  ℕ, ◌≡◌, refl, sym, ap, ◌∙◌, Bool, true, false, ◌||◌, List, [], ◌∷◌, ◌++◌, Option, none, some,
  arith, All, if◌then◌else◌, Bool-cases, inl, inr,
}
use place.Common.Bytes.{put_be}
use place.Keys.{
  fragment_key, is_legacy_stripe_key, stripe_inode_from_fragment_key, stripe_id_from_fragment_key,
}
use place.Fragment.{Fragment, decode_fragments}
use place.Kv.{Bytes, Batch, set, delete}
use place.Kv.Entries.{entry, bytes_eq, eq_of_bytes_eq, bytes_eq_sym, bytes_eq_self}
use place.Kv.Entries.Lookup.{last_op, last_op-set, last_op-delete}
use place.Index.{delete_all}
use place.Index.Migrate.{set_all}
use place.Index.Split.{blob_keys, sets_of, blob_sets}

-- The batch deletes the keys of the blobs.
abbrev pub any_key : List Bytes → Bytes → Bool
any_key [] q = false
any_key (k ∷ ks) q = bytes_eq k q || any_key ks q

pub last_op-delete_keys :
    (ks : List Bytes) (b : Batch) (q : Bytes) (o : Option Bytes)
    → last_op (delete_all b ks) q o ≡ (if any_key ks q then none else last_op b q o)
unfolding delete_all
last_op-delete_keys [] b q o = refl
last_op-delete_keys (k ∷ ks) b q o =
    last_op-delete_keys ks (delete b k) q o ∙ ground (arith, last_op-delete b k q o)

-- No blob's key is left under which no blob was found.
pub any_blob_key :
    (l : List (Bytes × Bytes)) (q : Bytes)
    → is_legacy_stripe_key q ≡ true
    → any_key (blob_keys l) q ≡ false
    → entry l q ≡ none
unfolding entry
any_blob_key [] q h e = refl
any_blob_key ((k, v) ∷ l) q h e = elim (Bool-cases (bytes_eq k q)) [
  | inl same ↦
      let named : is_legacy_stripe_key k ≡ true =
        ap is_legacy_stripe_key (eq_of_bytes_eq k q same) ∙ h in
      absurd (ground (arith, rw (named, same) at e))
  | inr apart ↦ elim (Bool-cases (is_legacy_stripe_key k)) [
    | inl blob ↦ rw apart (any_blob_key l q h (rw (blob, apart) at e))
    | inr other ↦ rw apart (any_blob_key l q h (rw other at e))
  ]
]

legacy-apart :
    (q k : Bytes)
    → is_legacy_stripe_key q ≡ true
    → is_legacy_stripe_key k ≡ false
    → bytes_eq q k ≡ false
legacy-apart q k legacy other = elim (Bool-cases (bytes_eq q k)) [
  | inl same ↦
      absurd (ground (arith, legacy, other, ap is_legacy_stripe_key (eq_of_bytes_eq q k same)))
  | inr apart ↦ apart
]

pub no_blob_keys :
    (l : List (Bytes × Bytes))
    → ((q : Bytes) → is_legacy_stripe_key q ≡ true → entry l q ≡ none)
    → blob_keys l ≡ []
unfolding entry
no_blob_keys [] h = refl
no_blob_keys ((k, v) ∷ l) h = elim (Bool-cases (is_legacy_stripe_key k)) [
  | inl blob ↦ absurd (ground (arith, h k blob, bytes_eq_self k))
  | inr other ↦ rw other (
      no_blob_keys l
        (λ q legacy. sym (rw (bytes_eq_sym k q ∙ legacy-apart q k legacy other) refl) ∙ h q legacy))
]

-- The writes of one key each.
abbrev pub Single : List (Bytes × Bytes) → Type 0
Single [] = Unit {0}
Single ((k, v) ∷ l) = All (λ (e : Bytes × Bytes). bytes_eq k e.0 ≡ false) l × Single l

abbrev pub found_or : Option Bytes → Option Bytes → Option Bytes
found_or (some v) o = some v
found_or none o = o

entry-apart :
    (k q : Bytes) (l : List (Bytes × Bytes))
    → bytes_eq k q ≡ true
    → All (λ (e : Bytes × Bytes). bytes_eq k e.0 ≡ false) l
    → entry l q ≡ none
unfolding entry
entry-apart k q [] same h = refl
entry-apart k q ((k', v) ∷ l) same h =
    rw (bytes_eq_sym k' q ∙ ap (λ a. bytes_eq a k') (sym (eq_of_bytes_eq k q same)) ∙ h.0)
      (entry-apart k q l same h.1)

pub last_op-set_all :
    (l : List (Bytes × Bytes)) (b : Batch) (q : Bytes) (o : Option Bytes)
    → Single l
    → last_op (set_all b l) q o ≡ found_or (entry l q) (last_op b q o)
unfolding set_all entry
last_op-set_all [] b q o h = refl
last_op-set_all ((k, v) ∷ l) b q o h =
    last_op-set_all l (set b k v) q o h.1
    ∙ ap (found_or (entry l q)) (last_op-set b k v q o)
    ∙ elim (Bool-cases (bytes_eq k q)) [
      | inl same ↦ rw (same, entry-apart k q l same h.0) refl
      | inr apart ↦ rw apart refl
    ]

fragment_key-not_legacy : (i st q : ℕ) → is_legacy_stripe_key (fragment_key i st q) ≡ false
unfolding is_legacy_stripe_key fragment_key put_be
fragment_key-not_legacy i st q = refl

entry-sets_of :
    (i st : ℕ) (fs : List Fragment) (rest : List (Bytes × Bytes)) (q : Bytes)
    → is_legacy_stripe_key q ≡ true
    → entry (sets_of i st fs ++ rest) q ≡ entry rest q
unfolding entry
entry-sets_of i st [] rest q h = refl
entry-sets_of i st (f ∷ fs) rest q h =
    rw (bytes_eq_sym _ q ∙ legacy-apart q _ h (fragment_key-not_legacy i st f.seq))
      (entry-sets_of i st fs rest q h)

-- No write is to a blob's key.
pub entry-blob_sets :
    (l : List (Bytes × Bytes)) (q : Bytes)
    → is_legacy_stripe_key q ≡ true
    → entry (blob_sets l) q ≡ none
unfolding entry
entry-blob_sets [] q h = refl
entry-blob_sets ((k, v) ∷ l) q h = elim (Bool-cases (is_legacy_stripe_key k)) [
  | inr other ↦ rw other (entry-blob_sets l q h)
  | inl blob ↦ rw blob (
      entry-sets_of (stripe_inode_from_fragment_key k) (stripe_id_from_fragment_key k)
        (decode_fragments v) (blob_sets l) q h
      ∙ entry-blob_sets l q h)
]
