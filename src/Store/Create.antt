-- ===== src/Store/Create.antt =====
-- store/store.go, what adds an entry: Create, Mkdir, Symlink, Link, and Open's first root. `now` is the time.
use place.Common.{
  ℕ, ◌+◌, Bool, true, false, not, [], Option, none, some, ltb, if◌then◌else◌, length,
}
use place.Errors.{Error, Result, ok, ◌>>=◌, ◌>>◌, fail_if}
use place.Common.Bytes.{put_le}
use place.Keys.{node_key, dirent_key, store_next_inode_key}
use place.Node.{Node, encode_node}
use place.Kv.{Bytes, Pebble, Batch, new_batch, set, get}
use place.Store.{
  Store, valid_name, require_dir, read_dirent, stat, is_dir, alloc_inode, dirent_value, more_links,
  commit_built, mode_dir, mode_regular, mode_symlink, perm_mask, root_inode, next_inode,
}
use Prim.Native.Nat.{bit_and, bit_or}

abbrev pub new_node : ℕ → ℕ → ℕ → ℕ → ℕ → ℕ → Bytes → Node
new_node inode mode nlink uid gid now target = record {
  inode = inode;
  mode = mode;
  nlink = nlink;
  uid = uid;
  gid = gid;
  size = length target;
  mtime = now;
  ctime = now;
  atime = now;
  symlink_target = target;
}

abbrev pub is_some {ℓ} : {A : Type ℓ} → Option A → Bool
is_some none = false
is_some (some a) = true

abbrev pub root_node : ℕ → Node
root_node now = new_node root_inode (bit_or mode_dir 0x1ED) 2 0 0 now []

abbrev pub first_inode : Option Bytes → ℕ
first_inode v = if ltb (next_inode v) (root_inode + 1) then root_inode + 1 else next_inode v

module _ {p : Pebble} where
  -- `if _, ok, err := s.readDirent(...); err != nil { ... } else if ok { return ErrExist }`
  unfoldable pub require_absent : Store p → ℕ → Bytes → Result (Unit {0})
  require_absent s parent name = do
    entry ← read_dirent s parent name
    fail_if (is_some entry) Error.exist

  unfoldable pub create_batch : Store p → ℕ → Bytes → ℕ → ℕ → ℕ → ℕ → Result (Batch × Node)
  create_batch s parent name mode uid gid now = do
    valid_name name
    require_dir s parent
    require_absent s parent name
    a ← alloc_inode s new_batch
    let n = new_node a.0 (bit_or mode_regular (bit_and mode perm_mask)) 1 uid gid now []
    ok (set (set a.1 (node_key a.0) (encode_node n)) (dirent_key parent name) (dirent_value a.0), n)

  unfoldable pub create : Store p → ℕ → Bytes → ℕ → ℕ → ℕ → ℕ → Store p × Result Node
  create s parent name mode uid gid now =
      commit_built s (create_batch s parent name mode uid gid now)

  unfoldable pub mkdir_batch : Store p → ℕ → Bytes → ℕ → ℕ → ℕ → ℕ → Result (Batch × Node)
  mkdir_batch s parent name mode uid gid now = do
    valid_name name
    parent_node ← stat s parent
    fail_if (not (is_dir parent_node.mode)) Error.not_dir
    require_absent s parent name
    a ← alloc_inode s new_batch
    let n = new_node a.0 (bit_or mode_dir (bit_and mode perm_mask)) 2 uid gid now []
    ok (
      set (set (set a.1 (node_key a.0) (encode_node n)) (dirent_key parent name) (dirent_value a.0))
          (node_key parent) (encode_node (more_links parent_node now)),
      n,
    )

  unfoldable pub mkdir : Store p → ℕ → Bytes → ℕ → ℕ → ℕ → ℕ → Store p × Result Node
  mkdir s parent name mode uid gid now = commit_built s (mkdir_batch s parent name mode uid gid now)

  unfoldable pub symlink_batch : Store p → ℕ → Bytes → Bytes → ℕ → ℕ → ℕ → Result (Batch × Node)
  symlink_batch s parent name target uid gid now = do
    valid_name name
    require_dir s parent
    require_absent s parent name
    a ← alloc_inode s new_batch
    let n = new_node a.0 (bit_or mode_symlink 0x1FF) 1 uid gid now target
    ok (set (set a.1 (node_key a.0) (encode_node n)) (dirent_key parent name) (dirent_value a.0), n)

  unfoldable pub symlink : Store p → ℕ → Bytes → Bytes → ℕ → ℕ → ℕ → Store p × Result Node
  symlink s parent name target uid gid now =
      commit_built s (symlink_batch s parent name target uid gid now)

  unfoldable pub link_batch : Store p → ℕ → ℕ → Bytes → ℕ → Result (Batch × Node)
  link_batch s target new_parent new_name now = do
    valid_name new_name
    tn ← stat s target
    fail_if (is_dir tn.mode) Error.not_permitted
    require_dir s new_parent
    require_absent s new_parent new_name
    let linked = more_links tn now
    ok (
      set (set new_batch (node_key target) (encode_node linked)) (dirent_key new_parent new_name)
          (dirent_value target),
      linked,
    )

  unfoldable pub link : Store p → ℕ → ℕ → Bytes → ℕ → Store p × Result Node
  link s target new_parent new_name now =
      commit_built s (link_batch s target new_parent new_name now)

  -- Open: the inode counter, and a root directory if there is none.
  unfoldable pub open_batch : Store p → ℕ → Result (Batch × Unit {0})
  open_batch s now = do
    v ← get p s.index.db store_next_inode_key
    let b = set new_batch store_next_inode_key (put_le 8 (first_inode v))
    root ← get p s.index.db (node_key root_inode)
    ok (if is_some root then b else set b (node_key root_inode) (encode_node (root_node now)), tt)

  unfoldable pub open_store : Store p → ℕ → Store p × Result (Unit {0})
  open_store s now = commit_built s (open_batch s now)
