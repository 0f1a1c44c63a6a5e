-- ===== src/Store/Emptied.antt =====
-- What Rmdir leaves in the database.
use place.Common.{
  ℕ, ◌^◌, ◌<◌, ◌≡◌, refl, sym, ap, ◌∙◌, true, false, ◌&&◌, not, All, none, some, arith, ◌==◌,
  if◌then◌else◌,
}
use place.Common.Bytes.{IsByte}
use place.Errors.{Error, ok, >>=-eq-ok, fail_if, fail_if-eq-ok, ok_inj}
use place.Keys.{node_key, dirent_key}
use place.Node.{Node, encode_node}
use place.Kv.{Bytes, Pebble, Batch, new_batch, set, delete}
use place.Kv.Entries.{bytes_eq}
use place.Kv.Entries.Lookup.{last_op, last_op-set, last_op-delete}
use place.Kv.Laws.{Laws}
use place.Kv.Names.{bytes_eq-node_key, bytes_eq-dirent_key, node-ne-dirent, dirent-ne-node}
use place.Store.{Store, valid_name, stat, read_dirent, is_dir, has_dirent_children, fewer_links}
use place.Store.Remove.{rmdir, rmdir_batch}
use place.Store.Childless.{has_dirent_children-held}
use place.Store.View.{held, held-commit_built}

module _ {p : Pebble} (laws : Laws p) (s s' : Store p) (parent : ℕ) (name : Bytes) (now child : ℕ)
    (n parent_node : Node) (parent_fits : parent < 2 ^ 64) (child_fits : child < 2 ^ 64)
    (there : read_dirent s parent name ≡ ok (some child)) (at : stat s child ≡ ok n)
    (above : stat s parent ≡ ok parent_node) where
  abbrev rmdir_ops : Batch
  rmdir_ops =
      set (delete (delete new_batch (dirent_key parent name)) (node_key child)) (node_key parent)
        (encode_node (fewer_links parent_node now))

  module _ (e : rmdir s parent name now ≡ (s', ok tt)) where
    rmdir_batch_inv :
        (b : Batch)
        → rmdir_batch s parent name now ≡ ok (b, tt)
        → (is_dir n.mode ≡ true) × (has_dirent_children s child ≡ ok false) × (b ≡ rmdir_ops)
    unfolding rmdir_batch
    rmdir_batch_inv b built =
        let (u, valid, e1) = >>=-eq-ok (valid_name name) _ built in
        let (v, dir, e2) =
          >>=-eq-ok (fail_if (not (is_dir n.mode)) Error.not_dir) _ (rw (there, at) at e1) in
        let (w, children, e3) = >>=-eq-ok (has_dirent_children s child) _ e2 in
        let (x, empty, e4) = >>=-eq-ok (fail_if w Error.not_empty) _ e3 in
        let no_children : w ≡ false = fail_if-eq-ok w Error.not_empty x empty in
        let a_dir : not (is_dir n.mode) ≡ false =
          fail_if-eq-ok (not (is_dir n.mode)) Error.not_dir v dir in
        (
          ground (arith, a_dir),
          children ∙ ap ok no_children,
          ap (λ (y : Batch × Unit {0}). y.0) (sym (ok_inj _ (b, tt) (rw above at e4))),
        )

    removed :
        (has_dirent_children s child ≡ ok false)
        × (is_dir n.mode ≡ true)
        × ((q : Bytes) → held laws s' q ≡ last_op rmdir_ops q (held laws s q))
    unfolding rmdir
    removed =
        let (b, built, at_key) = held-commit_built laws s s' (rmdir_batch s parent name now) tt e in
        let (dir, empty, same) = rmdir_batch_inv b built in
        (empty, dir, λ q. at_key q ∙ ap (λ c. last_op c q (held laws s q)) same)

    -- Rmdir succeeds only on a directory in which no name has an entry, and then its own entry and its
    -- node are gone, the parent has one link less, and every other node and entry is as it was. The
    -- inodes are uint64, and names are of bytes.
    pub rmdir-held :
        (i q : ℕ) (m child_name : Bytes)
        → i < 2 ^ 64
        → q < 2 ^ 64
        → All IsByte child_name
        → (is_dir n.mode ≡ true)
          × (held laws s (dirent_key child child_name) ≡ none)
          × (held laws s' (node_key i) ≡ (
              if parent == i
              then some (encode_node (fewer_links parent_node now))
              else (if child == i then none else held laws s (node_key i))))
          × (held laws s' (dirent_key q m)
              ≡ (if parent == q && bytes_eq name m then none else held laws s (dirent_key q m)))
    unfolding last_op
    rmdir-held i q m child_name hi hq bytes = (
      removed.1,
      has_dirent_children-held laws s child removed.0 child_name bytes,
      removed.2 (node_key i)
          ∙ rw
              (
                last_op-set,
                bytes_eq-node_key parent i parent_fits hi,
                last_op-delete,
                bytes_eq-node_key child i child_fits hi,
                last_op-delete,
                dirent-ne-node,
              )
              refl,
      removed.2 (dirent_key q m)
          ∙ rw
              (
                last_op-set,
                node-ne-dirent,
                last_op-delete,
                node-ne-dirent,
                last_op-delete,
                bytes_eq-dirent_key parent q name m parent_fits hq,
              )
              refl,
    )
