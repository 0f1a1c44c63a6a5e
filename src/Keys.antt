-- ===== src/Keys.antt =====
-- kv/keys.go: the keys of the store and the index, as lists of bytes. Inode numbers and seqs are
-- uint64, stripe ids uint32, and a name is its bytes.
pub mod Order
pub mod Prefix
pub mod Fields
mod Examples
use place.Common.{ℕ, zero, suc, ◌+◌, ◌%◌, Bool, List, [], ◌∷◌, ◌++◌, Option, none, some}
use place.Common.{length, drop, ◌==◌, if◌then◌else◌}
use place.Common.Bytes.{put_be, be_at}
use mathlib.Core.List.{reverse}

abbrev pub tag_store_meta : ℕ
tag_store_meta = b'M'

abbrev pub tag_node : ℕ
tag_node = b'n'

abbrev pub tag_dirent : ℕ
tag_dirent = b'd'

abbrev pub tag_stripe : ℕ
tag_stripe = b's'

abbrev pub store_next_inode_key : List ℕ
store_next_inode_key = tag_store_meta ∷ b'n' ∷ b'i' ∷ []

unfoldable pub node_key : ℕ → List ℕ
node_key inode = tag_node ∷ put_be 8 inode

unfoldable pub dirent_prefix : ℕ → List ℕ
dirent_prefix parent = tag_dirent ∷ put_be 8 parent

unfoldable pub dirent_key : ℕ → List ℕ → List ℕ
dirent_key parent name = tag_dirent ∷ put_be 8 parent ++ name

unfoldable pub dirent_parent_from_key : List ℕ → ℕ
unfolding be_at
dirent_parent_from_key k = be_at k 1 8

unfoldable pub dirent_name_from_key : List ℕ → List ℕ
dirent_name_from_key k = drop 9 k

unfoldable pub legacy_stripe_key : ℕ → ℕ → List ℕ
legacy_stripe_key inode stripe_id = tag_stripe ∷ put_be 8 inode ++ put_be 4 stripe_id

unfoldable pub fragment_key : ℕ → ℕ → ℕ → List ℕ
fragment_key inode stripe_id seq =
    tag_stripe ∷ put_be 8 inode ++ (put_be 4 stripe_id ++ put_be 8 seq)

unfoldable pub fragment_stripe_prefix : ℕ → ℕ → List ℕ
fragment_stripe_prefix inode stripe_id = tag_stripe ∷ put_be 8 inode ++ put_be 4 stripe_id

unfoldable pub stripe_prefix : ℕ → List ℕ
stripe_prefix inode = tag_stripe ∷ put_be 8 inode

abbrev pub stripe_all_prefix : List ℕ
stripe_all_prefix = tag_stripe ∷ []

unfoldable pub stripe_id_from_fragment_key : List ℕ → ℕ
unfolding be_at
stripe_id_from_fragment_key k = be_at k 9 4

unfoldable pub stripe_inode_from_fragment_key : List ℕ → ℕ
unfolding be_at
stripe_inode_from_fragment_key k = be_at k 1 8

unfoldable pub seq_from_fragment_key : List ℕ → ℕ
unfolding be_at
seq_from_fragment_key k = be_at k 13 8

unfoldable pub is_fragment_key : List ℕ → Bool
is_fragment_key k = length k == 21

unfoldable pub is_legacy_stripe_key : List ℕ → Bool
is_legacy_stripe_key k = length k == 13

-- The loop over `end` from its last byte down; the list holds `end[i]`, `end[i-1]`, and so on.
-- A byte that wraps to 0 is dropped, and the first that does not ends the loop.
unfoldable pub bump_last : List ℕ → Option (List ℕ)
bump_last [] = none
bump_last (b ∷ bs) =
    let rest = bump_last bs in
    if (b + 1) % 256 == 0 then rest else some (reverse ((b + 1) % 256 ∷ bs))

-- `none` is nil: no upper bound.
unfoldable pub prefix_upper_bound : List ℕ → Option (List ℕ)
unfolding bump_last
prefix_upper_bound prefix = bump_last (reverse prefix)
