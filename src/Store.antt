-- ===== src/Store.antt =====
-- store/store.go, the state, attributes and directory lookups. A name is its bytes. The operations
-- that change the namespace are in Create, Remove and Rename, and Attr has Setattr and Readdir.
pub mod Create
pub mod Remove
pub mod Rename
pub mod Attr
pub mod Write
pub mod Written
pub mod Direct
pub mod Flush
pub mod Flushed
pub mod Read
pub mod Stored
pub mod View
pub mod Made
pub mod Raced
pub mod Gone
pub mod Childless
pub mod Emptied
pub mod Moved
pub mod Examples
use place.Common.{
  ℕ, zero, suc, ◌+◌, ◌-◌, ◌%◌, ◌^◌, Bool, true, false, ◌||◌, not, List, [], ◌∷◌, ◌++◌, Option, none,
  some, ltb, ◌==◌, if◌then◌else◌, length,
}
use place.Common.Bytes.{put_le, put_be, from_le, from_be}
use place.Errors.{Error, Result, ok, err, ◌>>=◌, ◌>>◌, fail_if}
use place.Keys.{
  node_key, dirent_key, dirent_prefix, dirent_parent_from_key, store_next_inode_key, tag_dirent,
  prefix_upper_bound,
}
use place.Node.{Node, Decoded, encode_node, decode_node}
use place.Node
use place.Kv.{Bytes, Pebble, Batch, set, get, iter, commit}
use place.Kv.Entries.{bytes_eq}
use place.Index.{Index}
use place.Buffers.{Coalescer, live_attrs}
use Prim.Native.Nat.{bit_and, bit_or}

abbrev pub mode_mask : ℕ
mode_mask = 0xF000

abbrev pub mode_dir : ℕ
mode_dir = 0x4000

abbrev pub mode_regular : ℕ
mode_regular = 0x8000

abbrev pub mode_symlink : ℕ
mode_symlink = 0xA000

abbrev pub perm_mask : ℕ
perm_mask = 0xFFF

abbrev pub root_inode : ℕ
root_inode = 1

unfoldable pub is_dir : ℕ → Bool
is_dir mode = bit_and mode mode_mask == mode_dir

unfoldable pub is_symlink : ℕ → Bool
is_symlink mode = bit_and mode mode_mask == mode_symlink

-- The database is the index's own.
pub record Store (p : Pebble) : Type 0 where
  pub index : Index p
  pub coalescer : Coalescer

-- n.Nlink++ and n.Nlink--, a uint32.
abbrev pub more_links : Node → ℕ → Node
more_links n now = record n { nlink = (n.nlink + 1) % 2 ^ 32; ctime = now }

abbrev pub fewer_links : Node → ℕ → Node
fewer_links n now = record n { nlink = (n.nlink + 2 ^ 32 - 1) % 2 ^ 32; ctime = now }

unfoldable pub contains : Bytes → ℕ → Bool
contains [] c = false
contains (x ∷ xs) c = let rest = contains xs c in if x == c then true else rest

unfoldable pub valid_name : Bytes → Result (Unit {0})
unfolding contains
valid_name name =
    fail_if
      (bytes_eq name []
        || (bytes_eq name (b'.' ∷ [])
            || (bytes_eq name (b'.' ∷ b'.' ∷ []) || (contains name b'/' || contains name 0))))
      Error.invalid

unfoldable pub dirent_value : ℕ → Bytes
dirent_value inode = put_be 8 inode

-- The size and times clamped up by what the coalescer holds.
unfoldable pub with_live : Node → Option (ℕ × ℕ) → Node
with_live n none = n
with_live n (some (size, mtime)) = record n {
  size = if ltb n.size size then size else n.size;
  mtime = if ltb n.mtime mtime then mtime else n.mtime;
  ctime = if ltb n.mtime mtime then mtime else n.ctime;
}

unfoldable pub decoded : Decoded → Result Node
decoded (Node.ok n) = ok n
decoded (Node.err e) = err Error.bad_blob

-- The child of a directory entry's value.
unfoldable pub child_of : Option Bytes → Result (Option ℕ)
child_of none = ok none
child_of (some v) = if length v == 8 then ok (some (from_be 0 v)) else err Error.bad_blob

abbrev pub or_fail {ℓ} : {A : Type ℓ} → Option A → Error → Result A
or_fail none e = err e
or_fail (some a) e = ok a

-- `if err != nil { return fmt.Errorf(...) }`: another error in the place of the one that came.
abbrev pub or_else {ℓ} : {A : Type ℓ} → Result A → Error → Result A
or_else (ok a) e = ok a
or_else (err x) e = err e

-- The first entry of a scan whose value is `want`: the parent in its key.
unfoldable pub parent_in : Bytes → List (Bytes × Bytes) → Option ℕ
parent_in want [] = none
parent_in want ((k, v) ∷ rest) =
    let more = parent_in want rest in
    if bytes_eq v want then some (dirent_parent_from_key k) else more

abbrev pub next_inode : Option Bytes → ℕ
next_inode none = root_inode + 1
next_inode (some v) = if length v == 8 then from_le v else root_inode + 1

abbrev pub has_entries : List (Bytes × Bytes) → Bool
has_entries [] = false
has_entries (e ∷ es) = true

module _ {p : Pebble} where
  unfoldable pub stat : Store p → ℕ → Result Node
  stat s inode = do
    v ← get p s.index.db (node_key inode)
    blob ← or_fail v Error.not_exist
    n ← decoded (decode_node blob)
    ok (with_live n (live_attrs s.coalescer inode))

  unfoldable pub require_dir : Store p → ℕ → Result (Unit {0})
  require_dir s inode = do n ← stat s inode; fail_if (not (is_dir n.mode)) Error.not_dir

  unfoldable pub read_dirent : Store p → ℕ → Bytes → Result (Option ℕ)
  read_dirent s parent name = do v ← get p s.index.db (dirent_key parent name); child_of v

  unfoldable pub lookup : Store p → ℕ → Bytes → Result Node
  lookup s parent name = do
    valid_name name
    entry ← read_dirent s parent name
    child ← or_fail entry Error.not_exist
    or_else (stat s child) Error.dangling

  -- The loop of LookupPath over the parts of the path.
  unfoldable pub lookup_parts : Store p → Node → List Bytes → Result Node
  lookup_parts s n [] = ok n
  lookup_parts s n (name ∷ parts) = do
    fail_if (not (is_dir n.mode)) Error.not_dir
    child ← lookup s n.inode name
    lookup_parts s child parts

  unfoldable pub lookup_path : Store p → List Bytes → Result Node
  lookup_path s parts = do root ← stat s root_inode; lookup_parts s root parts

  unfoldable pub alloc_inode : Store p → Batch → Result (ℕ × Batch)
  alloc_inode s b = do
    v ← get p s.index.db store_next_inode_key
    let next = next_inode v
    ok (next, set b store_next_inode_key (put_le 8 ((next + 1) % 2 ^ 64)))

  unfoldable pub readlink : Store p → ℕ → Result Bytes
  readlink s inode = do
    n ← stat s inode
    fail_if (not (is_symlink n.mode)) Error.invalid
    ok n.symlink_target

  unfoldable pub open_inode : Store p → ℕ → Result ℕ
  open_inode s inode = do n ← stat s inode; ok inode

  unfoldable pub has_dirent_children : Store p → ℕ → Result Bool
  has_dirent_children s parent = do
    let prefix = dirent_prefix parent
    entries ← iter p s.index.db prefix (prefix_upper_bound prefix)
    ok (has_entries entries)

  unfoldable pub find_parent : Store p → ℕ → Result (Option ℕ)
  find_parent s inode = do
    let prefix = tag_dirent ∷ []
    entries ← iter p s.index.db prefix (prefix_upper_bound prefix)
    ok (parent_in (dirent_value inode) entries)

  -- The loop of isDescendant, with the rounds that are left.
  unfoldable pub descends : ℕ → Store p → ℕ → ℕ → Result Bool
  descends zero s cur root = ok false
  descends (suc i) s cur root = elim (cur == root_inode) [
    | true ↦ ok false
    | false ↦ do
      parent ← find_parent s cur
      elim parent [
        | none ↦ ok false
        | some above ↦ elim (above == root) [ true ↦ ok true | false ↦ descends i s above root ]
      ]
  ]

  unfoldable pub is_descendant : Store p → ℕ → ℕ → Result Bool
  is_descendant s candidate root = descends 1000 s candidate root

  -- A commit: the store after it, and the result or the error.
  abbrev pub commit_store {ℓ} : {A : Type ℓ} → Store p → Batch → A → Store p × Result A
  commit_store s b a =
      let (db', r) = commit p s.index.db b in
      (record s { index = record s.index { db = db' } }, r >>= λ u. ok a)

  -- What a batch was built for, or the error that came before: nothing is committed then.
  abbrev pub commit_built {ℓ} : {A : Type ℓ} → Store p → Result (Batch × A) → Store p × Result A
  commit_built s (err e) = (s, err e)
  commit_built s (ok (b, a)) = commit_store s b a
