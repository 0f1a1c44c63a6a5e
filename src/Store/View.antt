-- ===== src/Store/View.antt =====
-- What the store's batches leave in the database.
use place.Common.{ℕ, ◌^◌, ◌<◌, ◌≡◌, refl, ap, ◌∙◌, [], Option, some, arith}
use place.Common.Bytes.{from_be-put_be, length-put_be}
use place.Errors.{Error, Result, ok, err, ◌>>=◌}
use place.Keys.{node_key, dirent_key}
use place.Node.{Node, encode_node, decode_node}
use place.Node.Codec.{Fits, decode_node-encode_node}
use place.Kv.{Bytes, Pebble, Batch, commit}
use place.Kv.Entries.{entry}
use place.Kv.Entries.Lookup.{last_op, entry-apply_ops}
use place.Kv.Laws.{Laws, get_lem, commit_lem}
use place.Buffers.{live_attrs}
use place.Store.{
  Store, commit_store, commit_built, stat, read_dirent, dirent_value, child_of, decoded, with_live,
  or_fail,
}

after_ok {ℓ} :
    {A : Type ℓ} (r : Result (Unit {0})) (a b : A)
    → (r >>= λ u. ok a) ≡ ok b
    → (r ≡ ok tt) × (a ≡ b)
after_ok (ok u) a b e = (refl, ground arith)
after_ok (err x) a b e = absurd (cc)

module _ {p : Pebble} (laws : Laws p) where
  -- What the database holds under a key.
  abbrev pub held : Store p → Bytes → Option Bytes
  held s k = entry (laws.entries s.index.db) k

  held-commit_store {ℓ} :
      {A : Type ℓ} (s s' : Store p) (b : Batch) (a a' : A) (q : Bytes)
      → commit_store s b a ≡ (s', ok a')
      → (a ≡ a') × (held s' q ≡ last_op b q (held s q))
  held-commit_store s s' b a a' q e =
      let (committed, same) = after_ok (commit p s.index.db b).1 a a' (λ i. (e i).1) in
      let done : commit p s.index.db b ≡ (s'.index.db, ok tt) =
        λ i. ((e i).0.index.db, committed i) in
      (
        same,
        ap (λ l. entry l q) (commit_lem p laws s.index.db s'.index.db b done)
            ∙ entry-apply_ops b (laws.entries s.index.db) q,
      )

  -- A call that built a batch and committed it.
  pub held-commit_built {ℓ} :
      {A : Type ℓ} (s s' : Store p) (r : Result (Batch × A)) (a : A)
      → commit_built s r ≡ (s', ok a)
      → (b : Batch) × (r ≡ ok (b, a)) × ((q : Bytes) → held s' q ≡ last_op b q (held s q))
  held-commit_built s s' (err x) a e = absurd (ground arith)
  held-commit_built s s' (ok (b, a')) a e = (
    b,
    ap (λ x. ok (b, x)) (held-commit_store s s' b a' a [] e).0,
    λ q. (held-commit_store s s' b a' a q e).1,
  )

  pub read_dirent-held :
      (s : Store p) (q : ℕ) (m : Bytes) (inode : ℕ)
      → inode < 2 ^ 64
      → held s (dirent_key q m) ≡ some (dirent_value inode)
      → read_dirent s q m ≡ ok (some inode)
  unfolding read_dirent child_of dirent_value
  read_dirent-held s q m inode small e =
      ap (λ r. r >>= child_of) (get_lem p laws s.index.db (dirent_key q m) ∙ ap ok e)
      ∙ rw (length-put_be 8 inode) (ap (λ x. ok (some x)) (from_be-put_be 8 inode small))

  pub stat-held :
      (s : Store p) (inode : ℕ) (n : Node)
      → Fits n
      → held s (node_key inode) ≡ some (encode_node n)
      → stat s inode ≡ ok (with_live n (live_attrs s.coalescer inode))
  unfolding stat decoded
  stat-held s inode n f e =
      ap
        (λ r. r >>= λ v. or_fail v Error.not_exist >>= λ blob.
          decoded (decode_node blob) >>= λ m. ok (with_live m (live_attrs s.coalescer inode)))
        (get_lem p laws s.index.db (node_key inode) ∙ ap ok e)
      ∙ ap (λ d. decoded d >>= λ m. ok (with_live m (live_attrs s.coalescer inode)))
          (decode_node-encode_node n f)
