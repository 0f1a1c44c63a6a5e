-- ===== src/Fuse/Answers.antt =====
-- What one operation of the kernel's protocol answers after another, and the attributes it shows.
use place.Common.{
  ℕ, ◌+◌, ◌*◌, ◌^◌, ◌≤◌, ◌<◌, ◌≡◌, refl, Option, some, arith, All, ==_self, inl, inr,
}
use place.Common.Bytes.{IsByte}
use place.Errors.{Error, Result, ok, err, Result-cases}
use place.Keys.{dirent_key}
use place.Node.{Node}
use place.Kv.{Bytes, Pebble}
use place.Kv.Entries.{bytes_eq_self}
use place.Kv.Laws.{Laws, get_lem}
use place.Store.{Store, valid_name, stat, read_dirent, child_of, is_dir}
use place.Store
use place.Store.Remove
use place.Store.Remove.{unlink_batch, then_free}
use place.Store.Gone.{unlink-held}
use place.Fuse.{fill_attr, second, done, fails, reply_to, no_value, errno, as_errno, lookup, unlink}

-- The attributes that are shown lose nothing of the node's times, the part below a second is below
-- 10^9, the blocks of 512 bytes hold the size with less than a block to spare, and the link count is 1
-- or more.
fill_attr_lem :
    (n : Node)
    → ((fill_attr n).mtime * second + (fill_attr n).mtimensec ≡ n.mtime)
      × ((fill_attr n).ctime * second + (fill_attr n).ctimensec ≡ n.ctime)
      × ((fill_attr n).atime * second + (fill_attr n).atimensec ≡ n.atime)
      × ((fill_attr n).mtimensec < second)
      × (n.size ≤ (fill_attr n).blocks * 512)
      × ((fill_attr n).blocks * 512 < n.size + 512)
      × (0 < (fill_attr n).nlink)
unfolding fill_attr
fill_attr_lem n =
    (omega arith, omega arith, omega arith, omega arith, omega arith, omega arith, ground arith)

module _ {p : Pebble} (os : Error → Option ℕ) where
  reply_to_inv {ℓ κ} :
      {R : Type ℓ} {S : Type κ} (f : R → S) (x : Store p × Result R) (s' : Store p) (r : S)
      → reply_to os f x ≡ (s', done r)
      → (v : R) × (x ≡ (s', ok v)) × (f v ≡ r)
  reply_to_inv f (s, err e) s' r h = absurd (ground arith)
  reply_to_inv f (s, ok v) s' r h = (v, (λ i. ((h i).0, ok v)), ground arith)

-- A name that unlink accepted.
unlink-valid_name :
    {p : Pebble} (s s' : Store p) (parent : ℕ) (name : Bytes) (now : ℕ)
    → Remove.unlink s parent name now ≡ (s', ok tt)
    → valid_name name ≡ ok tt
unfolding Remove.unlink unlink_batch then_free
unlink-valid_name s s' parent name now e = elim (Result-cases (valid_name name)) [
  | inl (u, fine) ↦ fine
  | inr (x, bad) ↦ absurd (ground (arith, bad))
]

module _ {p : Pebble} (laws : Laws p) (os : Error → Option ℕ) (s s' : Store p) (parent : ℕ)
    (name : Bytes) (now child : ℕ) (n : Node) (parent_fits : parent < 2 ^ 64)
    (child_fits : child < 2 ^ 64) (bytes : All IsByte name)
    (there : read_dirent s parent name ≡ ok (some child)) (at : stat s child ≡ ok n) where
  -- A lookup of a name after an unlink of it that succeeded answers ENOENT. The name is of bytes, and
  -- the inodes are uint64.
  pub unlink-lookup :
      unlink os s parent name now ≡ (s', done tt) → lookup os s' parent name ≡ fails 2
  unfolding unlink lookup read_dirent errno as_errno Store.lookup child_of
  unlink-lookup e =
      let (u, gone, same) = reply_to_inv os no_value (Remove.unlink s parent name now) s' tt e in
      let (other, entry) =
        unlink-held laws s s' parent name now child n parent_fits child_fits there at gone 0 parent
          name (omega arith) parent_fits bytes in
      rw
        (
          unlink-valid_name s s' parent name now gone,
          get_lem p laws s'.index.db (dirent_key parent name),
          entry,
          ==_self parent,
          bytes_eq_self name,
          Store.lookup,
          read_dirent,
        )
        refl
