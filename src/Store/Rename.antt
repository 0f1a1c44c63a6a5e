-- ===== src/Store/Rename.antt =====
-- store/store.go, Rename. Its reads see the database before the batch, as Batch.Get does.
use place.Common.{ℕ, true, false, ◌&&◌, not, Option, none, some, ◌==◌}
use place.Errors.{Error, Result, ok, err, ◌>>=◌, ◌>>◌, fail_if}
use place.Keys.{node_key, dirent_key}
use place.Node.{Node, encode_node}
use place.Kv.{Bytes, Pebble, Batch, new_batch, set, delete}
use place.Store.{
  Store, valid_name, require_dir, read_dirent, stat, is_dir, has_dirent_children, is_descendant,
  dirent_value, more_links, fewer_links, or_fail, or_else, commit_built,
}
use place.Store.Remove.{drop_link, then_free}

module _ {p : Pebble} where
  -- A directory does not move into its own subtree.
  unfoldable pub require_no_cycle : Store p → ℕ → Node → ℕ → Result (Unit {0})
  require_no_cycle s src src_node new_parent = elim (is_dir src_node.mode) [
    | false ↦ ok tt
    | true ↦ do
      fail_if (new_parent == src) Error.invalid
      below ← is_descendant s new_parent src
      fail_if below Error.invalid
  ]

  -- An entry in the way, of the same kind: an empty directory, or one link less of a file.
  unfoldable pub replace_target : Store p → Node → ℕ → ℕ → ℕ → Result (Batch × Option ℕ)
  replace_target s src_node new_parent dst now = do
    dst_node ← or_else (stat s dst) Error.dangling
    fail_if (is_dir src_node.mode && not (is_dir dst_node.mode)) Error.not_dir
    fail_if (is_dir dst_node.mode && not (is_dir src_node.mode)) Error.is_dir
    elim (is_dir dst_node.mode) [
      | false ↦ ok (drop_link new_batch dst dst_node now)
      | true ↦ do
        has_children ← has_dirent_children s dst
        fail_if has_children Error.not_empty
        np ← stat s new_parent
        ok (
          set (delete new_batch (node_key dst)) (node_key new_parent)
              (encode_node (fewer_links np now)),
          none,
        )
    ]

  -- The link counts of the two parents of a directory that moves between them.
  unfoldable pub reparent : Store p → Node → ℕ → ℕ → ℕ → Batch → Result Batch
  reparent s src_node old_parent new_parent now b =
      elim (is_dir src_node.mode && not (old_parent == new_parent)) [
        | false ↦ ok b
        | true ↦ do
          op ← stat s old_parent
          np ← stat s new_parent
          ok (
              set (set b (node_key old_parent) (encode_node (fewer_links op now)))
                (node_key new_parent) (encode_node (more_links np now)))
      ]

  unfoldable pub move_entry :
      Store p
      → ℕ
      → Node
      → ℕ
      → Bytes
      → ℕ
      → Bytes
      → ℕ
      → Batch × Option ℕ
      → Result (Option (Batch × Option ℕ))
  move_entry s src src_node old_parent old_name new_parent new_name now (b, freed) = do
    b' ← reparent s src_node old_parent new_parent now (
        set (delete b (dirent_key old_parent old_name)) (dirent_key new_parent new_name)
          (dirent_value src))
    ok (some (b', freed))

  -- `none` is the no-op of a rename of an inode to itself.
  unfoldable pub rename_batch :
      Store p → ℕ → Bytes → ℕ → Bytes → ℕ → Result (Option (Batch × Option ℕ))
  rename_batch s old_parent old_name new_parent new_name now = do
    valid_name old_name
    valid_name new_name
    entry ← read_dirent s old_parent old_name
    src ← or_fail entry Error.not_exist
    src_node ← or_else (stat s src) Error.dangling
    require_dir s new_parent
    require_no_cycle s src src_node new_parent
    target ← read_dirent s new_parent new_name
    elim target [
      | none ↦
          move_entry s src src_node old_parent old_name new_parent new_name now (new_batch, none)
      | some dst ↦ elim (dst == src) [
        | true ↦ ok none
        | false ↦ do
          replaced ← replace_target s src_node new_parent dst now
          move_entry s src src_node old_parent old_name new_parent new_name now replaced
      ]
    ]

  unfoldable pub renamed :
      Store p → Result (Option (Batch × Option ℕ)) → Store p × Result (Unit {0})
  renamed s (err e) = (s, err e)
  renamed s (ok none) = (s, ok tt)
  renamed s (ok (some built)) = then_free (commit_built s (ok built))

  unfoldable pub rename : Store p → ℕ → Bytes → ℕ → Bytes → ℕ → Store p × Result (Unit {0})
  rename s old_parent old_name new_parent new_name now =
      renamed s (rename_batch s old_parent old_name new_parent new_name now)
