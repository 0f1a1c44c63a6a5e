-- ===== src/Node.antt =====
-- store/store.go, a Node (the attributes of a file) and the bytes it is stored as. Times before 1970
-- are left out.
pub mod Codec
mod Examples
use place.Common.{
  ℕ, ◌+◌, ◌-◌, ◌%◌, ◌^◌, List, [], ◌∷◌, ◌++◌, Option, none, some, ltb, if◌then◌else◌, length, take,
  drop,
}
use place.Common.Bytes.{put_le, le_at}

pub record Node : Type 0 where
  pub inode : ℕ
  pub mode : ℕ
  pub nlink : ℕ
  pub uid : ℕ
  pub gid : ℕ
  pub size : ℕ
  pub mtime : ℕ
  pub ctime : ℕ
  pub atime : ℕ
  pub symlink_target : List ℕ

abbrev pub node_fixed_size : ℕ
node_fixed_size = 58

unfoldable pub encode_node : Node → List ℕ
encode_node n =
    put_le 8 n.inode
    ++ (put_le 4 n.mode
        ++ (put_le 4 n.nlink
            ++ (put_le 4 n.uid
                ++ (put_le 4 n.gid
                    ++ (put_le 8 n.size
                        ++ (put_le 8 n.mtime
                            ++ (put_le 8 n.ctime
                                ++ (put_le 8 n.atime
                                    ++ (put_le 2 (length n.symlink_target % 2 ^ 16)
                                        ++ n.symlink_target)))))))))

pub data NodeError : Type 0 where
  too_short : ℕ → NodeError
  target_too_long : ℕ → NodeError

pub data Decoded : Type 0 where
  ok : Node → Decoded
  err : NodeError → Decoded

unfoldable pub decode_node : List ℕ → Decoded
unfolding le_at
decode_node buf =
    let sl = le_at buf 56 2 in
    if ltb (length buf) node_fixed_size
    then err (too_short (length buf))
    else if ltb (length buf - node_fixed_size) sl
    then err (target_too_long sl)
    else ok (record {
      inode = le_at buf 0 8;
      mode = le_at buf 8 4;
      nlink = le_at buf 12 4;
      uid = le_at buf 16 4;
      gid = le_at buf 20 4;
      size = le_at buf 24 8;
      mtime = le_at buf 32 8;
      ctime = le_at buf 40 8;
      atime = le_at buf 48 8;
      symlink_target = take sl (drop node_fixed_size buf);
    })
