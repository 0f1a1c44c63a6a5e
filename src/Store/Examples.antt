-- ===== src/Store/Examples.antt =====
-- A store in memory with a file and a directory, and the theorems at it.
mod Reads
mod Tree
mod Inodes
mod Writes
use place.Common.{
  ℕ, ◌≡◌, refl, false, true, [], ◌∷◌, none, some, arith, ◌^◌, ◌<◌, ◌&&◌, ◌==◌, if◌then◌else◌,
}
use place.Common.Bytes.{put_le, put_be, from_be, from_le, le_at, be_at}
use place.Common.Lex.{bytes_lt}
use place.Common.Int.{pos}
use place.Errors.{ok}
use place.Keys.{
  stripe_prefix, node_key, dirent_key, dirent_prefix, store_next_inode_key, prefix_upper_bound,
  bump_last,
}
use place.Node.{Node, encode_node, decode_node}
use place.Node.Codec.{Fits}
use place.Kv.{Bytes, set, delete, get, iter, commit}
use place.Kv.Entries.{entry, bytes_eq, apply_ops, put_entry, remove_entry, range}
use place.Kv.Memory.{memory, memory_laws, empty}
use place.SegmentSet.{SegmentSet}
use place.Buffers.{live_attrs, get_buf, drop_buf}
use place.Index.{delete_inode}
use place.Store.{
  Store, valid_name, contains, is_dir, require_dir, stat, lookup, read_dirent, dirent_value,
  decoded, child_of, with_live, alloc_inode, next_inode, has_dirent_children, fewer_links,
}
use place.Store.Create.{
  create, create_batch, mkdir, mkdir_batch, require_absent, new_node, open_store, open_batch,
}
use place.Store.Remove.{unlink, unlink_batch, drop_link, free_inode, then_free, rmdir, rmdir_batch}
use place.Store.View.{held}
use place.Store.Made.{create-held, lookup-create}
use place.Store.Gone.{unlink-held, node_left}
use place.Store.Emptied.{rmdir-held}

abbrev pub no_segments : ℕ → SegmentSet
no_segments tier = record {
  tier = tier;
  max_size = 1024;
  segments = [];
  active = none;
  next_id = 0;
  stray = [];
}

abbrev pub start : Store memory
start =
    (open_store {p = memory}
      (record {
        index = record {
          stripe_size = 4096;
          db = empty;
          hot = no_segments 1;
          cold = no_segments 2;
          seq_gen = 0;
        };
        coalescer = record {
          stripe_size = 4096;
          seq_gen = 0;
          held = pos 0;
          closing = false;
          buffers = [];
        };
      })
      5).0

abbrev pub file : Bytes
file = b'a' ∷ []

abbrev pub file_node : Node
file_node = new_node 2 0x81B4 1 0 0 9 []

abbrev pub with_file : Store memory
with_file = (create start 1 file 0x1B4 0 0 9).0

file_node-Fits : Fits file_node
file_node-Fits = record {
  inode_fits = omega arith;
  mode_fits = omega arith;
  nlink_fits = omega arith;
  uid_fits = omega arith;
  gid_fits = omega arith;
  size_fits = omega arith;
  mtime_fits = omega arith;
  ctime_fits = omega arith;
  atime_fits = omega arith;
  target_fits = omega arith;
}

creates : create start 1 file 0x1B4 0 0 9 ≡ (with_file, ok file_node)
unfolding create create_batch require_dir require_absent alloc_inode stat read_dirent valid_name
    contains is_dir decoded child_of with_live live_attrs get_buf open_store open_batch get commit
    set entry bytes_eq apply_ops put_entry bytes_lt node_key dirent_key encode_node decode_node
    put_le put_be le_at be_at from_le from_be dirent_value
creates = refl

pub room : next_inode (held memory_laws start store_next_inode_key) < 2 ^ 64
unfolding open_store open_batch get commit set delete entry bytes_eq apply_ops put_entry
    remove_entry bytes_lt node_key dirent_key encode_node decode_node put_le put_be le_at be_at
    from_le from_be dirent_value
room = omega arith

create-held_example :
    (file_node.inode ≡ next_inode (held memory_laws start store_next_inode_key))
    × (held memory_laws with_file (node_key 1)
        ≡ (if 2 == 1 then some (encode_node file_node) else held memory_laws start (node_key 1)))
    × (held memory_laws with_file (dirent_key 1 file) ≡ (
        if 1 == 1 && bytes_eq file file
        then some (dirent_value 2)
        else held memory_laws start (dirent_key 1 file)))
create-held_example =
    create-held memory_laws start with_file 1 file 0x1B4 0 0 9 file_node (omega arith) room creates
      1 1 file (omega arith) (omega arith)

quiet : live_attrs with_file.coalescer 2 ≡ none
unfolding live_attrs get_buf create create_batch open_store open_batch require_dir require_absent
    alloc_inode stat read_dirent valid_name contains is_dir decoded child_of with_live get commit
    set delete entry bytes_eq apply_ops put_entry remove_entry bytes_lt node_key dirent_key
    encode_node decode_node put_le put_be le_at be_at from_le from_be dirent_value
quiet = refl

lookup-create_example : lookup with_file 1 file ≡ ok file_node
lookup-create_example =
    lookup-create memory_laws start with_file 1 file 0x1B4 0 0 9 file_node (omega arith) room
      creates file_node-Fits quiet

abbrev pub without_file : Store memory
without_file = (unlink with_file 1 file 11).0

pub has_file : read_dirent with_file 1 file ≡ ok (some 2)
unfolding live_attrs get_buf create create_batch open_store open_batch require_dir require_absent
    alloc_inode stat read_dirent valid_name contains is_dir decoded child_of with_live get commit
    set delete entry bytes_eq apply_ops put_entry remove_entry bytes_lt node_key dirent_key
    encode_node decode_node put_le put_be le_at be_at from_le from_be dirent_value
has_file = refl

pub has_node : stat with_file 2 ≡ ok file_node
unfolding live_attrs get_buf create create_batch open_store open_batch require_dir require_absent
    alloc_inode stat read_dirent valid_name contains is_dir decoded child_of with_live get commit
    set delete entry bytes_eq apply_ops put_entry remove_entry bytes_lt node_key dirent_key
    encode_node decode_node put_le put_be le_at be_at from_le from_be dirent_value
has_node = refl

pub unlinks : unlink with_file 1 file 11 ≡ (without_file, ok tt)
unfolding unlink unlink_batch drop_link free_inode then_free drop_buf delete_inode iter range
    prefix_upper_bound bump_last stripe_prefix live_attrs get_buf create create_batch open_store
    open_batch require_dir require_absent alloc_inode stat read_dirent valid_name contains is_dir
    decoded child_of with_live get commit set delete entry bytes_eq apply_ops put_entry remove_entry
    bytes_lt node_key dirent_key encode_node decode_node put_le put_be le_at be_at from_le from_be
    dirent_value
unlinks = refl

unlink-held_example :
    (held memory_laws without_file (node_key 2)
      ≡ (if 2 == 2 then node_left file_node 11 else held memory_laws with_file (node_key 2)))
    × (held memory_laws without_file (dirent_key 1 file) ≡ (
        if 1 == 1 && bytes_eq file file
        then none
        else held memory_laws with_file (dirent_key 1 file)))
unlink-held_example =
    unlink-held memory_laws with_file without_file 1 file 11 2 file_node (omega arith) (omega arith)
      has_file has_node unlinks 2 1 file (omega arith) (omega arith) (omega arith, tt)

abbrev dir_node : Node
dir_node = new_node 2 0x41ED 2 0 0 9 []

abbrev with_dir : Store memory
with_dir = (mkdir start 1 file 0x1ED 0 0 9).0

abbrev root_then : Node
root_then = record (new_node 1 0x41ED 3 0 0 5 []) { ctime = 9 }

abbrev without_dir : Store memory
without_dir = (rmdir with_dir 1 file 11).0

has_dir : read_dirent with_dir 1 file ≡ ok (some 2)
unfolding live_attrs get_buf mkdir mkdir_batch open_store open_batch require_absent alloc_inode stat
    read_dirent valid_name contains is_dir decoded child_of with_live get commit set delete entry
    bytes_eq apply_ops put_entry remove_entry bytes_lt node_key dirent_key encode_node decode_node
    put_le put_be le_at be_at from_le from_be dirent_value
has_dir = refl

dir_stat : stat with_dir 2 ≡ ok dir_node
unfolding live_attrs get_buf mkdir mkdir_batch open_store open_batch require_absent alloc_inode stat
    read_dirent valid_name contains is_dir decoded child_of with_live get commit set delete entry
    bytes_eq apply_ops put_entry remove_entry bytes_lt node_key dirent_key encode_node decode_node
    put_le put_be le_at be_at from_le from_be dirent_value
dir_stat = refl

root_stat : stat with_dir 1 ≡ ok root_then
unfolding live_attrs get_buf mkdir mkdir_batch open_store open_batch require_absent alloc_inode stat
    read_dirent valid_name contains is_dir decoded child_of with_live get commit set delete entry
    bytes_eq apply_ops put_entry remove_entry bytes_lt node_key dirent_key encode_node decode_node
    put_le put_be le_at be_at from_le from_be dirent_value
root_stat = refl

rmdirs : rmdir with_dir 1 file 11 ≡ (without_dir, ok tt)
unfolding rmdir rmdir_batch has_dirent_children dirent_prefix iter range prefix_upper_bound
    bump_last live_attrs get_buf mkdir mkdir_batch open_store open_batch require_absent alloc_inode
    stat read_dirent valid_name contains is_dir decoded child_of with_live get commit set delete
    entry bytes_eq apply_ops put_entry remove_entry bytes_lt node_key dirent_key encode_node
    decode_node put_le put_be le_at be_at from_le from_be dirent_value
rmdirs = refl

rmdir-held_example :
    (is_dir dir_node.mode ≡ true)
    × (held memory_laws with_dir (dirent_key 2 file) ≡ none)
    × (held memory_laws without_dir (node_key 1) ≡ (
        if 1 == 1
        then some (encode_node (fewer_links root_then 11))
        else (if 2 == 1 then none else held memory_laws with_dir (node_key 1))))
    × (held memory_laws without_dir (dirent_key 1 file) ≡ (
        if 1 == 1 && bytes_eq file file
        then none
        else held memory_laws with_dir (dirent_key 1 file)))
rmdir-held_example =
    rmdir-held memory_laws with_dir without_dir 1 file 11 2 dir_node root_then (omega arith)
      (omega arith) has_dir dir_stat root_stat rmdirs 1 1 file file (omega arith) (omega arith)
      (omega arith, tt)
