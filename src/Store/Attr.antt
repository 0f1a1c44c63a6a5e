-- ===== src/Store/Attr.antt =====
-- store/store.go, Setattr and Readdir.
use place.Common.{
  ℕ, true, false, not, List, [], ◌∷◌, Option, none, some, ltb, ◌==◌, if◌then◌else◌, length,
}
use place.Errors.{Error, Result, ok, err, ◌>>=◌, ◌>>◌, fail_if}
use place.Common.Bytes.{from_be}
use place.Keys.{node_key, dirent_prefix, dirent_name_from_key, prefix_upper_bound}
use place.Node.{Node, encode_node}
use place.Kv.{Bytes, Pebble, new_batch, set, iter}
use place.Index.{truncate}
use place.Buffers.{invalidate_past_size}
use place.Store.{Store, stat, is_dir, commit_store, mode_mask, perm_mask}
use Prim.Native.Nat.{bit_and, bit_or}

pub record SetAttr : Type 0 where
  pub mode : Option ℕ
  pub uid : Option ℕ
  pub gid : Option ℕ
  pub size : Option ℕ
  pub mtime : Option ℕ
  pub atime : Option ℕ

abbrev pub get_or : Option ℕ → ℕ → ℕ
get_or none x = x
get_or (some y) x = y

unfoldable pub with_attrs : Node → SetAttr → ℕ → Node
with_attrs n sa now = record n {
  mode = elim sa.mode [
    | none ↦ n.mode
    | some m ↦ bit_or (bit_and n.mode mode_mask) (bit_and m perm_mask)
  ];
  uid = get_or sa.uid n.uid;
  gid = get_or sa.gid n.gid;
  mtime = get_or sa.mtime n.mtime;
  atime = get_or sa.atime n.atime;
  size = get_or sa.size n.size;
  ctime = now;
}

pub record DirEntry : Type 0 where
  pub name : Bytes
  pub inode : ℕ
  pub mode : ℕ

module _ {p : Pebble} where
  -- A smaller size: buffered extents first, then the fragments. `none` is a panic of Truncate.
  unfoldable pub shrink : Store p → ℕ → Option ℕ → Option (Store p × Result (Unit {0}))
  shrink s inode none = some (s, ok tt)
  shrink s inode (some size) = elim (stat s inode) [
    | err e ↦ some (s, err e)
    | ok cur ↦
        let clipped = invalidate_past_size s.coalescer inode size in
        elim (ltb size cur.size) [
          | false ↦ some (s, ok tt)
          | true ↦ elim (truncate s.index inode size) [
            | none ↦ none
            | some (idx, r) ↦ some (record s { index = idx; coalescer = clipped }, r)
          ]
        ]
  ]

  unfoldable pub update_node : Store p → ℕ → SetAttr → ℕ → Store p × Result Node
  update_node s inode sa now = elim (stat s inode) [
    | err e ↦ (s, err e)
    | ok n ↦
        let nn = with_attrs n sa now in
        commit_store s (set new_batch (node_key inode) (encode_node nn)) nn
  ]

  unfoldable pub setattr : Store p → ℕ → SetAttr → ℕ → Option (Store p × Result Node)
  setattr s inode sa now = elim (shrink s inode sa.size) [
    | none ↦ none
    | some (s', err e) ↦ some (s', err e)
    | some (s', ok u) ↦ some (update_node s' inode sa now)
  ]

  -- The loop of Readdir: values of another length and entries whose node is not there are passed by.
  unfoldable pub dir_entries : Store p → List (Bytes × Bytes) → List DirEntry
  dir_entries s [] = []
  dir_entries s ((k, v) ∷ rest) =
      let more = dir_entries s rest in
      if length v == 8
      then elim (stat s (from_be 0 v)) [
        | err e ↦ more
        | ok n ↦ record { name = dirent_name_from_key k; inode = from_be 0 v; mode = n.mode } ∷ more
      ]
      else more

  unfoldable pub readdir : Store p → ℕ → Result (List DirEntry)
  readdir s inode = do
    dn ← stat s inode
    fail_if (not (is_dir dn.mode)) Error.not_dir
    let prefix = dirent_prefix inode
    entries ← iter p s.index.db prefix (prefix_upper_bound prefix)
    ok (dir_entries s entries)
