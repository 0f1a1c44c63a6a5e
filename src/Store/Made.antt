-- ===== src/Store/Made.antt =====
-- What Create, Mkdir, Symlink and Link leave in the database, and that the new entry is found.
use place.Common.{
  ℕ, ◌+◌, ◌%◌, ◌^◌, ◌<◌, ◌≡◌, refl, sym, ap, ◌∙◌, ◌&&◌, Option, none, some, arith, ◌==◌,
  if◌then◌else◌, ==_self,
}
use place.Common.Bytes.{put_le}
use place.Errors.{Result, ok, >>=-eq-ok}
use place.Keys.{node_key, dirent_key, store_next_inode_key}
use place.Node.{Node, encode_node}
use place.Node.Codec.{Fits}
use place.Kv.{Bytes, Pebble, Batch, new_batch, set}
use place.Kv.Entries.{bytes_eq, bytes_eq_self}
use place.Kv.Entries.Lookup.{last_op, last_op-set}
use place.Kv.Laws.{Laws, get_lem}
use place.Kv.Names.{
  bytes_eq-node_key, bytes_eq-dirent_key, node-ne-dirent, dirent-ne-node, next-ne-node,
  next-ne-dirent,
}
use place.Buffers.{live_attrs}
use place.Store.{
  Store, valid_name, require_dir, stat, lookup, read_dirent, alloc_inode, dirent_value, next_inode,
  with_live,
}
use place.Store.Create.{create, create_batch, require_absent}
use place.Store.View.{held, held-commit_built, read_dirent-held, stat-held}

-- The writes of Create and Symlink.
abbrev pub entry_batch : ℕ → Node → ℕ → Bytes → Batch
entry_batch id n parent name =
    set
      (set (set new_batch store_next_inode_key (put_le 8 ((id + 1) % 2 ^ 64))) (node_key id)
        (encode_node n))
      (dirent_key parent name) (dirent_value id)

module _ (id parent : ℕ) (n : Node) (name : Bytes) (id_fits : id < 2 ^ 64)
    (parent_fits : parent < 2 ^ 64) where
  pub entry_batch-node_key :
      (i : ℕ) (o : Option Bytes)
      → i < 2 ^ 64
      → last_op (entry_batch id n parent name) (node_key i) o
        ≡ (if id == i then some (encode_node n) else o)
  unfolding last_op
  entry_batch-node_key i o h =
      rw
        (
          last_op-set,
          last_op-set,
          last_op-set,
          dirent-ne-node,
          bytes_eq-node_key id i id_fits h,
          next-ne-node,
        )
        refl

  pub entry_batch-dirent_key :
      (q : ℕ) (m : Bytes) (o : Option Bytes)
      → q < 2 ^ 64
      → last_op (entry_batch id n parent name) (dirent_key q m) o
        ≡ (if parent == q && bytes_eq name m then some (dirent_value id) else o)
  unfolding last_op
  entry_batch-dirent_key q m o h =
      rw
        (
          last_op-set,
          last_op-set,
          last_op-set,
          node-ne-dirent,
          bytes_eq-dirent_key parent q name m parent_fits h,
          next-ne-dirent,
        )
        refl

built_inj :
    (b b' : Batch) (n n' : Node)
    → ◌≡◌ {A = Result (Batch × Node)} (ok (b, n)) (ok (b', n'))
    → (b ≡ b') × (n ≡ n')
built_inj b b' n n' e = (cc, cc)

module _ {p : Pebble} (laws : Laws p) where
  pub alloc_inode-held :
      (s : Store p) (b : Batch)
      → alloc_inode s b
        ≡ ok (
          next_inode (held laws s store_next_inode_key),
          set b store_next_inode_key
              (put_le 8 ((next_inode (held laws s store_next_inode_key) + 1) % 2 ^ 64)),
        )
  unfolding alloc_inode
  alloc_inode-held s b = rw (get_lem p laws s.index.db store_next_inode_key) refl

  pub create_batch_inv :
      (s : Store p) (parent : ℕ) (name : Bytes) (mode uid gid now : ℕ) (b : Batch) (n : Node)
      → create_batch s parent name mode uid gid now ≡ ok (b, n)
      → (valid_name name ≡ ok tt)
        × (n.inode ≡ next_inode (held laws s store_next_inode_key))
        × (b ≡ entry_batch n.inode n parent name)
  unfolding create_batch
  create_batch_inv s parent name mode uid gid now b n e =
      let (u, valid, e1) = >>=-eq-ok (valid_name name) _ e in
      let (v, dir, e2) = >>=-eq-ok (require_dir s parent) _ e1 in
      let (w, absent, e3) = >>=-eq-ok (require_absent s parent name) _ e2 in
      let (same_b, same_n) = built_inj _ b _ n (rw (alloc_inode-held s new_batch) at e3) in
      (valid, ap (λ (m : Node). m.inode) (sym same_n), sym same_b ∙ rw (← same_n) refl)

module _ {p : Pebble} (laws : Laws p) (s s' : Store p) (parent : ℕ) (name : Bytes)
    (mode uid gid now : ℕ) (n : Node) (parent_fits : parent < 2 ^ 64)
    (room : next_inode (held laws s store_next_inode_key) < 2 ^ 64)
    (e : create s parent name mode uid gid now ≡ (s', ok n)) where
  created :
      (b : Batch) × (create_batch s parent name mode uid gid now ≡ ok (b, n))
      × ((q : Bytes) → held laws s' q ≡ last_op b q (held laws s q))
  unfolding create
  created = held-commit_built laws s s' (create_batch s parent name mode uid gid now) n e

  pub created_held :
      (valid_name name ≡ ok tt)
      × (n.inode ≡ next_inode (held laws s store_next_inode_key))
      × ((q : Bytes)
          → held laws s' q ≡ last_op (entry_batch n.inode n parent name) q (held laws s q))
  created_held =
      let (b, built, at) = created in
      let (valid, id, same) = create_batch_inv laws s parent name mode uid gid now b n built in
      (valid, id, λ q. at q ∙ ap (λ c. last_op c q (held laws s q)) same)

  inode_fits : n.inode < 2 ^ 64
  inode_fits = omega (arith, room, created_held.1)

  -- Create takes the inode from the counter, and leaves the node under it, the entry under the name,
  -- and every other node and entry as it was; the inode and the parent are uint64.
  pub create-held :
      (i q : ℕ) (m : Bytes)
      → i < 2 ^ 64
      → q < 2 ^ 64
      → (n.inode ≡ next_inode (held laws s store_next_inode_key))
        × (held laws s' (node_key i)
            ≡ (if n.inode == i then some (encode_node n) else held laws s (node_key i)))
        × (held laws s' (dirent_key q m) ≡ (
            if parent == q && bytes_eq name m
            then some (dirent_value n.inode)
            else held laws s (dirent_key q m)))
  create-held i q m hi hq = (
    created_held.1,
    created_held.2 (node_key i)
        ∙ entry_batch-node_key n.inode parent n name inode_fits parent_fits i _ hi,
    created_held.2 (dirent_key q m)
        ∙ entry_batch-dirent_key n.inode parent n name inode_fits parent_fits q m _ hq,
  )

  -- A file that was created is found under its name with the node that Create returned, where the
  -- node's fields are in range and the coalescer holds nothing for the new inode.
  pub lookup-create : Fits n → live_attrs s'.coalescer n.inode ≡ none → lookup s' parent name ≡ ok n
  unfolding lookup with_live
  lookup-create f quiet =
      let (id, node, entry_there) = create-held n.inode parent name inode_fits parent_fits in
      let found : read_dirent s' parent name ≡ ok (some n.inode) =
        read_dirent-held laws s' parent name n.inode inode_fits
          (entry_there ∙ rw (==_self parent, bytes_eq_self name) refl) in
      let there : stat s' n.inode ≡ ok n =
        stat-held laws s' n.inode n f (node ∙ rw (==_self n.inode) refl) ∙ rw quiet refl in
      rw (created_held.0, found, there) refl
