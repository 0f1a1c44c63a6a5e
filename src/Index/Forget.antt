-- ===== src/Index/Forget.antt =====
-- DeleteInode on what the database holds.
use place.Common.{
  ℕ, ◌≡◌, refl, sym, ap, ◌∙◌, Bool, true, false, List, [], ◌∷◌, Option, none, some, arith, All,
  if◌then◌else◌,
}
use place.Common.Bytes.{IsByte, put_be-IsByte}
use place.Common.Lex.{has_prefix}
use place.Errors.{Result, ok}
use place.Keys.{stripe_prefix, prefix_upper_bound}
use place.Kv.{Bytes, Pebble, remove, Batch, new_batch, delete, commit}
use place.Kv.Entries.{entry, range, bytes_eq}
use place.Kv.Entries.Lookup.{last_op, last_op-append, entry-apply_ops, entry-range}
use place.Kv.Laws.{Laws, iter_lem, commit_lem}
use place.Kv.Names.{in_prefix_range}
use place.Index.{Index, keys_of, delete_all, delete_inode, commit_index}

-- What is left under a key that a scan found, or did not find.
abbrev pub unless_found : Option Bytes → Option Bytes → Option Bytes
unless_found none o = o
unless_found (some v) o = none

unless_found-none : (x : Option Bytes) → unless_found x none ≡ none
unless_found-none none = refl
unless_found-none (some v) = refl

pub unless_found_if :
    (here : Bool) (x o : Option Bytes) (v : Bytes)
    → unless_found x (if here then none else o) ≡ unless_found (if here then some v else x) o
unless_found_if true x o v = unless_found-none x
unless_found_if false x o v = refl

last_op-delete :
    (b : Batch) (k q : Bytes) (o : Option Bytes)
    → last_op (delete b k) q o ≡ (if bytes_eq k q then none else last_op b q o)
unfolding delete last_op
last_op-delete b k q o = last_op-append b (remove k ∷ []) q o

last_op-delete_all :
    (l : List (Bytes × Bytes)) (b : Batch) (q : Bytes) (o : Option Bytes)
    → last_op (delete_all b (keys_of l)) q o ≡ unless_found (entry l q) (last_op b q o)
unfolding delete_all keys_of entry
last_op-delete_all [] b q o = refl
last_op-delete_all ((k, v) ∷ l) b q o =
    last_op-delete_all l (delete b k) q o
    ∙ ap (unless_found (entry l q)) (last_op-delete b k q o)
    ∙ unless_found_if (bytes_eq k q) (entry l q) (last_op b q o) v

unless_in_range :
    (b : Bool) (o : Option Bytes) → unless_found (if b then o else none) o ≡ (if b then none else o)
unless_in_range true none = refl
unless_in_range true (some v) = refl
unless_in_range false o = refl

stripe_prefix-IsByte : (inode : ℕ) → All IsByte (stripe_prefix inode)
unfolding stripe_prefix
stripe_prefix-IsByte inode = (omega arith, put_be-IsByte 8 inode)

module _ {p : Pebble} (laws : Laws p) (idx idx' : Index p) (inode : ℕ) where
  abbrev found : List (Bytes × Bytes)
  found =
      range (laws.entries idx.db) (stripe_prefix inode) (prefix_upper_bound (stripe_prefix inode))

  delete_inode_step :
      (l : List (Bytes × Bytes)) (q : Bytes)
      → commit_index idx (delete_all new_batch (keys_of l)) ≡ (idx', ok tt)
      → entry (laws.entries idx'.db) q ≡ unless_found (entry l q) (entry (laws.entries idx.db) q)
  unfolding last_op
  delete_inode_step l q e =
      let committed : commit p idx.db (delete_all new_batch (keys_of l)) ≡ (idx'.db, ok tt) =
        λ i. ((e i).0.db, (e i).1) in
      ap (λ m. entry m q) (commit_lem p laws idx.db idx'.db _ committed)
      ∙ entry-apply_ops (delete_all new_batch (keys_of l)) (laws.entries idx.db) q
      ∙ last_op-delete_all l new_batch q (entry (laws.entries idx.db) q)

  abbrev deleted : List (Bytes × Bytes) → Index p × Result (Unit {0})
  deleted [] = (idx, ok tt)
  deleted (x ∷ l) = commit_index idx (delete_all new_batch (keys_of (x ∷ l)))

  deleted-entry :
      (l : List (Bytes × Bytes)) (q : Bytes)
      → deleted l ≡ (idx', ok tt)
      → entry (laws.entries idx'.db) q ≡ unless_found (entry l q) (entry (laws.entries idx.db) q)
  unfolding entry
  deleted-entry [] q e = λ i. entry (laws.entries (sym e i).0.db) q
  deleted-entry (x ∷ l) q e = delete_inode_step (x ∷ l) q e

  delete_inode-deleted : delete_inode idx inode ≡ deleted found
  unfolding delete_inode
  delete_inode-deleted = rw (iter_lem p laws idx.db (stripe_prefix inode) _, delete_inode) refl

  -- After DeleteInode succeeds no key of the inode's stripes is left, and every other key has the
  -- value it had.
  pub delete_inode-entry :
      (q : Bytes)
      → All IsByte q
      → delete_inode idx inode ≡ (idx', ok tt)
      → entry (laws.entries idx'.db) q
        ≡ (if has_prefix (stripe_prefix inode) q then none else entry (laws.entries idx.db) q)
  delete_inode-entry q hq e =
      deleted-entry found q (sym delete_inode-deleted ∙ e)
      ∙ ap (λ x. unless_found x (entry (laws.entries idx.db) q))
          (entry-range (laws.entries idx.db) (stripe_prefix inode)
            (prefix_upper_bound (stripe_prefix inode)) q)
      ∙ unless_in_range _ (entry (laws.entries idx.db) q)
      ∙ ap (λ b. if b then none else entry (laws.entries idx.db) q)
          (in_prefix_range (stripe_prefix inode) q (stripe_prefix-IsByte inode) hq)
