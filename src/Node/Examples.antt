-- ===== src/Node/Examples.antt =====
-- A symlink's node, encoded.
use place.Common.{◌≡◌, [], ◌∷◌, ◌+◌, length, arith}
use place.Common.Bytes.{put_le}
use place.Node.{Node, encode_node}

abbrev link : Node
link = record {
  inode = 7;
  mode = 0xA1FF;
  nlink = 1;
  uid = 1000;
  gid = 1000;
  size = 3;
  mtime = 5;
  ctime = 6;
  atime = 7;
  symlink_target = 46 ∷ 46 ∷ 47 ∷ [];
}

sixty_one_bytes : 60 + 1 ≡ length (encode_node link)
unfolding encode_node put_le
sixty_one_bytes = omega arith
