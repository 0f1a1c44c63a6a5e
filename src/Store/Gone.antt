-- ===== src/Store/Gone.antt =====
-- What Unlink leaves in the database.
use place.Common.{
  ℕ, ◌^◌, ◌<◌, ◌≡◌, refl, sym, ap, ◌∙◌, false, ◌&&◌, Option, none, some, arith, All, All-append,
  ◌==◌, if◌then◌else◌, Bool-cases, inl, inr,
}
use place.Common.Bytes.{IsByte, put_be, put_be-IsByte}
use place.Common.Lex.{has_prefix}
use place.Errors.{Error, Result, ok, err, >>=-eq-ok, fail_if, ok_inj}
use place.Keys.{node_key, dirent_key, stripe_prefix}
use place.Node.{Node, encode_node}
use place.Kv.{Bytes, Pebble, Batch, new_batch, delete}
use place.Kv.Entries.{bytes_eq}
use place.Kv.Entries.Lookup.{last_op, last_op-set, last_op-delete}
use place.Kv.Laws.{Laws}
use place.Kv.Names.{bytes_eq-node_key, bytes_eq-dirent_key, node-ne-dirent, dirent-ne-node}
use place.Index.{delete_inode}
use place.Buffers.{drop_buf}
use place.Index.Forget.{delete_inode-entry}
use place.Store.{Store, valid_name, stat, read_dirent, is_dir, fewer_links, commit_built}
use place.Store.Remove.{drop_link, free_inode, then_free, unlink, unlink_batch}
use place.Store.View.{held, held-commit_built}

pub node_key-IsByte : (i : ℕ) → All IsByte (node_key i)
unfolding node_key
node_key-IsByte i = (omega arith, put_be-IsByte 8 i)

pub dirent_key-IsByte : (q : ℕ) (m : Bytes) → All IsByte m → All IsByte (dirent_key q m)
unfolding dirent_key
dirent_key-IsByte q m h = (omega arith, All-append IsByte (put_be 8 q) m (put_be-IsByte 8 q) h)

pub stripe-apart-node : (j i : ℕ) → has_prefix (stripe_prefix j) (node_key i) ≡ false
unfolding has_prefix stripe_prefix node_key
stripe-apart-node j i = refl

pub stripe-apart-dirent :
    (j q : ℕ) (m : Bytes) → has_prefix (stripe_prefix j) (dirent_key q m) ≡ false
unfolding has_prefix stripe_prefix dirent_key
stripe-apart-dirent j q m = refl

-- The link count after one link less, and what is stored then.
abbrev pub node_left : Node → ℕ → Option Bytes
node_left n now =
    if (fewer_links n now).nlink == 0 then none else some (encode_node (fewer_links n now))

pub last_op-drop_link :
    (b : Batch) (inode : ℕ) (n : Node) (now : ℕ) (q : Bytes) (o : Option Bytes)
    → last_op (drop_link b inode n now).0 q o
      ≡ (if bytes_eq (node_key inode) q then node_left n now else last_op b q o)
unfolding drop_link
last_op-drop_link b inode n now q o = elim (Bool-cases ((fewer_links n now).nlink == 0)) [
  | inl last ↦ rw last (last_op-delete b (node_key inode) q o)
  | inr more ↦ rw more (last_op-set b (node_key inode) (encode_node (fewer_links n now)) q o)
]

then_free_inv :
    {p : Pebble} (x : Store p × Result (Option ℕ)) (s' : Store p)
    → then_free x ≡ (s', ok tt)
    → (f : Option ℕ) × (x.1 ≡ ok f) × (free_inode x.0 f ≡ (s', ok tt))
unfolding then_free
then_free_inv (s, err e) s' h = absurd (ground arith)
then_free_inv (s, ok f) s' h = (f, refl, h)

module _ {p : Pebble} (laws : Laws p) where
  -- Freeing an inode touches no node and no entry.
  held-free_inode :
      (s s' : Store p) (f : Option ℕ) (q : Bytes)
      → All IsByte q
      → ((j : ℕ) → has_prefix (stripe_prefix j) q ≡ false)
      → free_inode s f ≡ (s', ok tt)
      → held laws s' q ≡ held laws s q
  unfolding free_inode
  held-free_inode s s' none q b apart e = λ i. held laws (sym e i).0 q
  held-free_inode s s' (some inode) q b apart e = elim (Bool-cases (inode == 0)) [
    | inl zero_inode ↦
        let e' : ◌≡◌ {A = Store p × Result (Unit {0})} (s, ok tt) (s', ok tt) =
          rw zero_inode at e in
        λ i. held laws (sym e' i).0 q
    | inr real ↦ freed_entry (rw real at e)
  ]
    where
      freed_entry :
          ◌≡◌ {A = Store p × Result (Unit {0})}
            (
              record s {
                index = (delete_inode s.index inode).0;
                coalescer = drop_buf s.coalescer inode;
              },
              (delete_inode s.index inode).1,
            )
            (s', ok tt)
          → held laws s' q ≡ held laws s q
      freed_entry d =
          delete_inode-entry laws s.index s'.index inode q b (λ i. ((d i).0.index, (d i).1))
          ∙ rw (apart inode) refl

  pub held-then_free :
      (s s' : Store p) (r : Result (Batch × Option ℕ)) (q : Bytes)
      → All IsByte q
      → ((j : ℕ) → has_prefix (stripe_prefix j) q ≡ false)
      → then_free (commit_built s r) ≡ (s', ok tt)
      → (b : Batch) × (f : Option ℕ) × (r ≡ ok (b, f))
        × (held laws s' q ≡ last_op b q (held laws s q))
  held-then_free s s' r q bytes apart e =
      let (f, done, freed) = then_free_inv (commit_built s r) s' e in
      let (b, built, at) =
        held-commit_built laws s (commit_built s r).0 r f (λ i. ((commit_built s r).0, done i)) in
      (b, f, built, held-free_inode (commit_built s r).0 s' f q bytes apart freed ∙ at q)

  unlink_batch_inv :
      (s : Store p) (parent : ℕ) (name : Bytes) (now child : ℕ) (n : Node) (b : Batch)
      (f : Option ℕ)
      → read_dirent s parent name ≡ ok (some child)
      → stat s child ≡ ok n
      → unlink_batch s parent name now ≡ ok (b, f)
      → b ≡ (drop_link (delete new_batch (dirent_key parent name)) child n now).0
  unfolding unlink_batch
  unlink_batch_inv s parent name now child n b f there at e =
      let (u, valid, e1) = >>=-eq-ok (valid_name name) _ e in
      let (v, file, e2) =
        >>=-eq-ok (fail_if (is_dir n.mode) Error.is_dir) _ (rw (there, at) at e1) in
      ap (λ (x : Batch × Option ℕ). x.0) (sym (ok_inj _ (b, f) e2))

module _ {p : Pebble} (laws : Laws p) (s s' : Store p) (parent : ℕ) (name : Bytes) (now child : ℕ)
    (n : Node) (parent_fits : parent < 2 ^ 64) (child_fits : child < 2 ^ 64)
    (there : read_dirent s parent name ≡ ok (some child)) (at : stat s child ≡ ok n) where
  module _ (e : unlink s parent name now ≡ (s', ok tt)) where
    unlinked :
        (q : Bytes)
        → All IsByte q
        → ((j : ℕ) → has_prefix (stripe_prefix j) q ≡ false)
        → held laws s' q
          ≡ last_op
              (drop_link (delete new_batch (dirent_key parent name)) child n now).0
              q
              (held laws s q)
    unfolding unlink
    unlinked q b apart =
        let (ops, f, built, here) =
          held-then_free laws s s' (unlink_batch s parent name now) q b apart e in
        here
        ∙ ap (λ c. last_op c q (held laws s q))
            (unlink_batch_inv laws s parent name now child n ops f there at built)

    -- Unlink takes the entry away and one link off the node, which goes with its last link; every
    -- other node and entry stays as it was. The inodes are uint64.
    pub unlink-held :
        (i q : ℕ) (m : Bytes)
        → i < 2 ^ 64
        → q < 2 ^ 64
        → All IsByte m
        → (held laws s' (node_key i)
            ≡ (if child == i then node_left n now else held laws s (node_key i)))
          × (held laws s' (dirent_key q m)
              ≡ (if parent == q && bytes_eq name m then none else held laws s (dirent_key q m)))
    unfolding last_op
    unlink-held i q m hi hq hm = (
      unlinked (node_key i) (node_key-IsByte i) (λ j. stripe-apart-node j i)
          ∙ rw
              (
                last_op-drop_link,
                bytes_eq-node_key child i child_fits hi,
                last_op-delete,
                dirent-ne-node,
              )
              refl,
      unlinked (dirent_key q m) (dirent_key-IsByte q m hm) (λ j. stripe-apart-dirent j q m)
          ∙ rw
              (
                last_op-drop_link,
                node-ne-dirent,
                last_op-delete,
                bytes_eq-dirent_key parent q name m parent_fits hq,
              )
              refl,
    )
