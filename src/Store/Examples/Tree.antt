-- ===== src/Store/Examples/Tree.antt =====
-- A file that gets another name, and a directory that replaces another one.
use place.Common.{
  ℕ, ◌≡◌, refl, false, true, List, [], ◌∷◌, none, some, arith, ◌&&◌, ◌==◌, if◌then◌else◌,
}
use place.Common.Bytes.{put_le, put_be, from_be, from_le, le_at, be_at}
use place.Common.Lex.{bytes_lt}
use place.Errors.{ok}
use place.Keys.{
  node_key, dirent_key, dirent_prefix, dirent_parent_from_key, prefix_upper_bound, bump_last,
}
use place.Node.{Node, encode_node, decode_node}
use place.Kv.{Bytes, set, delete, get, iter, commit}
use place.Kv.Entries.{entry, bytes_eq, apply_ops, put_entry, remove_entry, range, IsSorted}
use place.Kv.Memory.{memory, memory_laws}
use place.Buffers.{live_attrs, get_buf}
use place.Store.{
  Store, valid_name, contains, is_dir, require_dir, stat, read_dirent, dirent_value, decoded,
  child_of, with_live, alloc_inode, has_dirent_children, more_links, is_descendant, descends,
  find_parent, parent_in,
}
use place.Store.Create.{create, create_batch, require_absent, new_node, open_store, open_batch}
use place.Store.Remove.{then_free, free_inode}
use place.Store.Rename.{
  rename, rename_batch, renamed, require_no_cycle, replace_target, reparent, move_entry,
}
use place.Store.View.{held}
use place.Store.Moved.{rename-held, rename-more_links}
use place.Store.Examples.{start, with_file, file, file_node, has_file, has_node}

abbrev other : Bytes
other = b'b' ∷ []

abbrev with_other : Store memory
with_other = (rename with_file 1 file 1 other 11).0

other_free : read_dirent with_file 1 other ≡ ok none
unfolding live_attrs get_buf create create_batch open_store open_batch require_dir require_absent
    alloc_inode stat read_dirent valid_name contains is_dir decoded child_of with_live get commit
    set delete entry bytes_eq apply_ops put_entry remove_entry bytes_lt node_key dirent_key
    encode_node decode_node put_le put_be le_at be_at from_le from_be dirent_value
other_free = refl

is_file : is_dir file_node.mode ≡ false
unfolding is_dir
is_file = refl

renames : rename with_file 1 file 1 other 11 ≡ (with_other, ok tt)
unfolding rename rename_batch renamed require_no_cycle reparent move_entry then_free free_inode
    live_attrs get_buf create create_batch open_store open_batch require_dir require_absent
    alloc_inode stat read_dirent valid_name contains is_dir decoded child_of with_live get commit
    set delete entry bytes_eq apply_ops put_entry remove_entry bytes_lt node_key dirent_key
    encode_node decode_node put_le put_be le_at be_at from_le from_be dirent_value
renames = refl

rename-held_example :
    (held memory_laws with_other (node_key 2) ≡ held memory_laws with_file (node_key 2))
    × (held memory_laws with_other (dirent_key 1 file) ≡ (
        if 1 == 1 && bytes_eq other file
        then some (dirent_value 2)
        else (if 1 == 1 && bytes_eq file file
            then none
            else held memory_laws with_file (dirent_key 1 file))))
rename-held_example =
    rename-held memory_laws with_file with_other 1 1 file other 11 (omega arith) (omega arith)
      renames 2 file_node has_file has_node is_file other_free 2 1 file (omega arith)
      (omega arith, tt)

abbrev dir : ℕ → ℕ → Node
dir inode nlink = new_node inode 0x41ED nlink 0 0 5 []

-- The root has `a` and `b`, and `a` has a `b` of its own.
abbrev tree_entries : List (Bytes × Bytes)
tree_entries =
    (dirent_key 1 file, dirent_value 2)
    ∷ (dirent_key 1 other, dirent_value 3)
    ∷ (dirent_key 2 other, dirent_value 4)
    ∷ (node_key 1, encode_node (dir 1 4))
    ∷ (node_key 2, encode_node (dir 2 3))
    ∷ (node_key 3, encode_node (dir 3 2))
    ∷ (node_key 4, encode_node (dir 4 2))
    ∷ []

in_order : IsSorted tree_entries
unfolding bytes_lt node_key dirent_key put_be
in_order = (
  (refl, (refl, (refl, (refl, (refl, (refl, tt)))))),
  (
    (refl, (refl, (refl, (refl, (refl, tt))))),
    (
      (refl, (refl, (refl, (refl, tt)))),
      ((refl, (refl, (refl, tt))), ((refl, (refl, tt)), ((refl, tt), (tt, tt)))),
    ),
  ),
)

abbrev tree : Store memory
tree = record start {
  index = record start.index { db = record { list = tree_entries; in_order = in_order } };
}

abbrev after : Store memory
after = (rename tree 2 other 1 other 11).0

replaces : rename tree 2 other 1 other 11 ≡ (after, ok tt)
unfolding rename rename_batch renamed require_no_cycle replace_target reparent move_entry
    is_descendant descends find_parent parent_in dirent_parent_from_key has_dirent_children
    dirent_prefix iter range prefix_upper_bound bump_last then_free free_inode live_attrs get_buf
    open_store open_batch require_dir stat read_dirent valid_name contains is_dir decoded child_of
    with_live get commit set delete entry bytes_eq apply_ops put_entry remove_entry bytes_lt
    node_key dirent_key encode_node decode_node put_le put_be le_at be_at from_le from_be
    dirent_value
replaces = refl

source_entry : read_dirent tree 2 other ≡ ok (some 4)
unfolding read_dirent child_of get commit set delete entry bytes_eq apply_ops put_entry remove_entry
    bytes_lt node_key dirent_key encode_node decode_node put_le put_be le_at be_at from_le from_be
    dirent_value
source_entry = refl

target_entry : read_dirent tree 1 other ≡ ok (some 3)
unfolding read_dirent child_of get commit set delete entry bytes_eq apply_ops put_entry remove_entry
    bytes_lt node_key dirent_key encode_node decode_node put_le put_be le_at be_at from_le from_be
    dirent_value
target_entry = refl

source_node : stat tree 4 ≡ ok (dir 4 2)
unfolding stat decoded with_live live_attrs get_buf open_store open_batch get commit set delete
    entry bytes_eq apply_ops put_entry remove_entry bytes_lt node_key dirent_key encode_node
    decode_node put_le put_be le_at be_at from_le from_be dirent_value
source_node = refl

target_node : stat tree 3 ≡ ok (dir 3 2)
unfolding stat decoded with_live live_attrs get_buf open_store open_batch get commit set delete
    entry bytes_eq apply_ops put_entry remove_entry bytes_lt node_key dirent_key encode_node
    decode_node put_le put_be le_at be_at from_le from_be dirent_value
target_node = refl

root_node_now : stat tree 1 ≡ ok (dir 1 4)
unfolding stat decoded with_live live_attrs get_buf open_store open_batch get commit set delete
    entry bytes_eq apply_ops put_entry remove_entry bytes_lt node_key dirent_key encode_node
    decode_node put_le put_be le_at be_at from_le from_be dirent_value
root_node_now = refl

old_parent_node : stat tree 2 ≡ ok (dir 2 3)
unfolding stat decoded with_live live_attrs get_buf open_store open_batch get commit set delete
    entry bytes_eq apply_ops put_entry remove_entry bytes_lt node_key dirent_key encode_node
    decode_node put_le put_be le_at be_at from_le from_be dirent_value
old_parent_node = refl

is_dir_mode : is_dir 0x41ED ≡ true
unfolding is_dir
is_dir_mode = refl

rename-more_links_example :
    (held memory_laws tree (dirent_key 3 file) ≡ none)
    × (held memory_laws after (node_key 1) ≡ some (encode_node (more_links (dir 1 4) 11)))
rename-more_links_example =
    rename-more_links memory_laws tree after 2 1 other other 11 (omega arith) (omega arith) replaces
      4 (dir 4 2) source_entry source_node 3 (dir 3 2) (dir 2 3) (dir 1 4) is_dir_mode target_entry
      refl target_node is_dir_mode refl old_parent_node root_node_now file (omega arith, tt)
