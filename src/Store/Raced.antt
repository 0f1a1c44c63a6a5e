-- ===== src/Store/Raced.antt =====
-- Two calls of Create of store/store.go at once. Create takes no lock between the reads that build its
-- batch, the inode counter among them, and the commit.
use place.Common.{ℕ, ◌^◌, ◌<◌, ◌≡◌, refl, sym, ap, ◌∙◌, false, ◌&&◌, some, arith, ◌==◌, ==_self}
use place.Errors.{ok}
use place.Keys.{node_key, dirent_key, store_next_inode_key}
use place.Node.{Node, encode_node}
use place.Kv.{Bytes, Pebble}
use place.Kv.Entries.{bytes_eq, bytes_eq_self}
use place.Kv.Entries.Lookup.{last_op}
use place.Kv.Laws.{Laws}
use place.Store.{Store, dirent_value, commit_built, next_inode}
use place.Store.Create.{create_batch}
use place.Store.View.{held, held-commit_built}
use place.Store.Made.{entry_batch, entry_batch-node_key, entry_batch-dirent_key, create_batch_inv}

module _ {p : Pebble} (laws : Laws p) where
  -- A Create that read the store as it was at `s` and committed its batch to `t`.
  created_late :
      (s t t' : Store p) (parent : ℕ) (name : Bytes) (mode uid gid now : ℕ) (n : Node)
      → commit_built t (create_batch s parent name mode uid gid now) ≡ (t', ok n)
      → (n.inode ≡ next_inode (held laws s store_next_inode_key))
        × ((q : Bytes)
            → held laws t' q ≡ last_op (entry_batch n.inode n parent name) q (held laws t q))
  created_late s t t' parent name mode uid gid now n e =
      let (b, built, at) =
        held-commit_built laws t t' (create_batch s parent name mode uid gid now) n e in
      let (valid, inode, same) = create_batch_inv laws s parent name mode uid gid now b n built in
      (inode, λ q. at q ∙ ap (λ c. last_op c q (held laws t q)) same)

  -- Two Creates of different entries that both read the store before either commits, and then both
  -- commit, give their files one inode: both entries name it, and its node is that of the second. The
  -- inodes are uint64, and the inode counter does not overflow.
  pub create-race :
      (s t t' : Store p) (parent parent' : ℕ) (name name' : Bytes)
      (mode mode' uid uid' gid gid' now now' : ℕ) (n n' : Node)
      → parent < 2 ^ 64
      → parent' < 2 ^ 64
      → next_inode (held laws s store_next_inode_key) < 2 ^ 64
      → (parent' == parent && bytes_eq name' name) ≡ false
      → commit_built s (create_batch s parent name mode uid gid now) ≡ (t, ok n)
      → commit_built t (create_batch s parent' name' mode' uid' gid' now') ≡ (t', ok n')
      → (n'.inode ≡ n.inode)
        × (held laws t' (node_key n.inode) ≡ some (encode_node n'))
        × (held laws t' (dirent_key parent name) ≡ some (dirent_value n.inode))
        × (held laws t' (dirent_key parent' name') ≡ some (dirent_value n.inode))
  create-race s t t' parent parent' name name' mode mode' uid uid' gid gid' now now' n n' small
        small' room apart first second =
      let (inode, at) = created_late s s t parent name mode uid gid now n first in
      let (inode', at') = created_late s t t' parent' name' mode' uid' gid' now' n' second in
      let same : n'.inode ≡ n.inode = inode' ∙ sym inode in
      let fits : n.inode < 2 ^ 64 = omega (arith, inode, room) in
      let fits' : n'.inode < 2 ^ 64 = omega (arith, inode', room) in
      (
        same,
        at' (node_key n.inode)
            ∙ entry_batch-node_key n'.inode parent' n' name' fits' small' n.inode _ fits
            ∙ rw (same, ==_self n.inode) refl,
        at' (dirent_key parent name)
            ∙ entry_batch-dirent_key n'.inode parent' n' name' fits' small' parent name _ small
            ∙ rw apart (
                at (dirent_key parent name)
                ∙ entry_batch-dirent_key n.inode parent n name fits small parent name _ small
                ∙ rw (==_self parent, bytes_eq_self name) refl),
        at' (dirent_key parent' name')
            ∙ entry_batch-dirent_key n'.inode parent' n' name' fits' small' parent' name' _ small'
            ∙ rw (==_self parent', bytes_eq_self name', same) refl,
      )
