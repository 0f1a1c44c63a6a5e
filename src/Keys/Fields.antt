-- ===== src/Keys/Fields.antt =====
-- The fields that a key carries can be read back, and the key's length tells its layout.
use place.Common.{ℕ, ◌^◌, ◌<◌, ◌≡◌, refl, true, false, List}
use place.Common.Bytes.{put_be, from_be-put_be}
use place.Keys.{
  fragment_key, stripe_inode_from_fragment_key, stripe_id_from_fragment_key, seq_from_fragment_key,
  dirent_key, dirent_parent_from_key, dirent_name_from_key, is_fragment_key, is_legacy_stripe_key,
}

-- The inode, the stripe id and the seq of a fragment key are those it was built from, and the
-- key counts as a fragment key and not as a legacy one, for uint64 inodes and seqs and uint32
-- stripe ids.
pub fragment_key_fields :
    (inode stripe_id seq : ℕ)
    → inode < 2 ^ 64
    → stripe_id < 2 ^ 32
    → seq < 2 ^ 64
    → (stripe_inode_from_fragment_key (fragment_key inode stripe_id seq) ≡ inode)
      × (stripe_id_from_fragment_key (fragment_key inode stripe_id seq) ≡ stripe_id)
      × (seq_from_fragment_key (fragment_key inode stripe_id seq) ≡ seq)
      × (is_fragment_key (fragment_key inode stripe_id seq) ≡ true)
      × (is_legacy_stripe_key (fragment_key inode stripe_id seq) ≡ false)
unfolding fragment_key put_be stripe_inode_from_fragment_key stripe_id_from_fragment_key
    seq_from_fragment_key is_fragment_key is_legacy_stripe_key
fragment_key_fields inode stripe_id seq hi hs hq =
    (from_be-put_be 8 inode hi, from_be-put_be 4 stripe_id hs, from_be-put_be 8 seq hq, refl, refl)

-- A directory entry's key gives back the parent (a uint64) and the whole name.
pub dirent_key_fields :
    (parent : ℕ) (name : List ℕ)
    → parent < 2 ^ 64
    → (dirent_parent_from_key (dirent_key parent name) ≡ parent)
      × (dirent_name_from_key (dirent_key parent name) ≡ name)
unfolding dirent_key put_be dirent_parent_from_key dirent_name_from_key
dirent_key_fields parent name h = (from_be-put_be 8 parent h, refl)
