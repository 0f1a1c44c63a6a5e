-- ===== src/Store/Remove.antt =====
-- store/store.go, Unlink and Rmdir, and what follows when an inode's last link is gone.
use place.Common.{ℕ, not, Option, none, some, ◌==◌, if◌then◌else◌}
use place.Errors.{Error, Result, ok, err, ◌>>=◌, ◌>>◌, fail_if}
use place.Keys.{node_key, dirent_key}
use place.Node.{Node, encode_node}
use place.Kv.{Bytes, Pebble, Batch, new_batch, set, delete}
use place.Index.{delete_inode}
use place.Buffers.{drop_buf}
use place.Store.{
  Store, valid_name, read_dirent, stat, is_dir, has_dirent_children, fewer_links, or_fail, or_else,
  commit_built,
}

-- The writes for one link less: the node's deletion with its inode to free, or the node.
unfoldable pub drop_link : Batch → ℕ → Node → ℕ → Batch × Option ℕ
drop_link b inode n now =
    let fewer = fewer_links n now in
    if fewer.nlink == 0
    then (delete b (node_key inode), some inode)
    else (set b (node_key inode) (encode_node fewer), none)

module _ {p : Pebble} where
  -- freeInode != 0: the buffered writes and then the fragments of the inode go.
  unfoldable pub free_inode : Store p → Option ℕ → Store p × Result (Unit {0})
  free_inode s none = (s, ok tt)
  free_inode s (some inode) =
      if inode == 0
      then (s, ok tt)
      else let (idx, r) = delete_inode s.index inode in
        (record s { index = idx; coalescer = drop_buf s.coalescer inode }, r)

  -- What runs after a commit that succeeded.
  unfoldable pub then_free : Store p × Result (Option ℕ) → Store p × Result (Unit {0})
  then_free (s, err e) = (s, err e)
  then_free (s, ok freed) = free_inode s freed

  unfoldable pub unlink_batch : Store p → ℕ → Bytes → ℕ → Result (Batch × Option ℕ)
  unlink_batch s parent name now = do
    valid_name name
    entry ← read_dirent s parent name
    child ← or_fail entry Error.not_exist
    n ← or_else (stat s child) Error.dangling
    fail_if (is_dir n.mode) Error.is_dir
    ok (drop_link (delete new_batch (dirent_key parent name)) child n now)

  unfoldable pub unlink : Store p → ℕ → Bytes → ℕ → Store p × Result (Unit {0})
  unlink s parent name now = then_free (commit_built s (unlink_batch s parent name now))

  unfoldable pub rmdir_batch : Store p → ℕ → Bytes → ℕ → Result (Batch × Unit {0})
  rmdir_batch s parent name now = do
    valid_name name
    entry ← read_dirent s parent name
    child ← or_fail entry Error.not_exist
    n ← or_else (stat s child) Error.dangling
    fail_if (not (is_dir n.mode)) Error.not_dir
    has_children ← has_dirent_children s child
    fail_if has_children Error.not_empty
    parent_node ← stat s parent
    ok (
      set (delete (delete new_batch (dirent_key parent name)) (node_key child)) (node_key parent)
          (encode_node (fewer_links parent_node now)),
      tt,
    )

  unfoldable pub rmdir : Store p → ℕ → Bytes → ℕ → Store p × Result (Unit {0})
  rmdir s parent name now = commit_built s (rmdir_batch s parent name now)
