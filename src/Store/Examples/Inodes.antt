-- ===== src/Store/Examples/Inodes.antt =====
-- Two files that get one inode.
use place.Common.{◌≡◌, refl, false, [], ◌∷◌, arith, ◌==◌}
use place.Common.Bytes.{put_le, put_be, from_le, from_be, le_at, be_at}
use place.Common.Lex.{bytes_lt}
use place.Keys.{node_key}
use place.Node.{encode_node}
use place.Kv.{Bytes, set, get, commit}
use place.Kv.Entries.{entry, bytes_eq, apply_ops, put_entry}
use place.Kv.Memory.{memory_laws}
use place.Errors.{ok}
use place.Node.{Node}
use place.Store.Create.{open_store, open_batch, create, create_batch, require_absent}
use place.Store.{
  Store, commit_built, dirent_value, require_dir, alloc_inode, stat, read_dirent, valid_name,
  contains, is_dir, decoded, child_of, with_live,
}
use place.Buffers.{live_attrs, get_buf}
use place.Node.{decode_node}
use place.Kv.Memory.{memory}
use place.Common.{some, ◌&&◌}
use place.Keys.{dirent_key}
use place.Store.Raced.{create-race}
use place.Store.Examples.{room}
use place.Store.View.{held}
use place.Store.Examples.{start, with_file, file, file_node, creates}

abbrev other : Bytes
other = b'b' ∷ []

abbrev other_node : Node
other_node = record file_node { mtime = 10; ctime = 10; atime = 10 }

-- A second Create that read the store when the first had not committed.
abbrev with_both : Store memory
with_both = (commit_built with_file (create_batch start 1 other 0x1B4 0 0 10)).0

commits :
    commit_built with_file (create_batch start 1 other 0x1B4 0 0 10) ≡ (with_both, ok other_node)
unfolding create create_batch require_dir require_absent alloc_inode stat read_dirent valid_name
    contains is_dir decoded child_of with_live live_attrs get_buf open_store open_batch get commit
    set entry bytes_eq apply_ops put_entry bytes_lt node_key dirent_key encode_node decode_node
    put_le put_be le_at be_at from_le from_be dirent_value
commits = refl

apart : (1 == 1 && bytes_eq other file) ≡ false
unfolding bytes_eq
apart = refl

create-race_example :
    (other_node.inode ≡ file_node.inode)
    × (held memory_laws with_both (node_key 2) ≡ some (encode_node other_node))
    × (held memory_laws with_both (dirent_key 1 file) ≡ some (dirent_value 2))
    × (held memory_laws with_both (dirent_key 1 other) ≡ some (dirent_value 2))
unfolding create
create-race_example =
    create-race memory_laws start with_file with_both 1 1 file other 0x1B4 0x1B4 0 0 0 0 9 10
      file_node other_node (omega arith) (omega arith) room apart creates commits
