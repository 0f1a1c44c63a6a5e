-- ===== src/Kv/Names.antt =====
-- Which keys of the store and the index are equal.
use place.Common.{
  ℕ, ◌^◌, ◌<◌, ◌≡◌, refl, ap, ◌∙◌, sym, Bool, true, false, not, ◌&&◌, [], ◌∷◌, ◌++◌, arith, All,
  ◌==◌, length, Option-cases, inl, inr,
}
use place.Common.Bytes.{IsByte, put_be, length-put_be}
use place.Common.Lex.{bytes_lt, bytes_lt-put_be, has_prefix}
use place.Keys.{node_key, dirent_key, store_next_inode_key, prefix_upper_bound}
use place.Keys.Prefix.{prefix_upper_bound-has_prefix, prefix_upper_bound-none}
use place.Kv.{Bytes}
use place.Kv.Entries.{bytes_eq, bytes_lt-bytes_eq, bytes_eq_of_not_lt, bytes_eq_sym, below_hi}

bytes_eq_by_lt : (a b : Bytes) → bytes_eq a b ≡ (not (bytes_lt a b) && not (bytes_lt b a))
bytes_eq_by_lt a b =
    ground (
      arith,
      bytes_lt-bytes_eq a b,
      bytes_lt-bytes_eq b a,
      bytes_eq_of_not_lt a b,
      bytes_eq_sym a b,
    )

pub bytes_eq-put_be :
    (w a b : ℕ) → a < 256 ^ w → b < 256 ^ w → bytes_eq (put_be w a) (put_be w b) ≡ (a == b)
bytes_eq-put_be w a b ha hb =
    bytes_eq_by_lt (put_be w a) (put_be w b)
    ∙ rw (bytes_lt-put_be w a b ha hb, bytes_lt-put_be w b a hb ha) (ground arith)

pub bytes_eq-append :
    (xs ys r s : Bytes)
    → length xs ≡ length ys
    → bytes_eq (xs ++ r) (ys ++ s) ≡ (bytes_eq xs ys && bytes_eq r s)
unfolding bytes_eq
bytes_eq-append [] [] r s e = refl
bytes_eq-append [] (y ∷ ys) r s e = absurd (omega arith)
bytes_eq-append (x ∷ xs) [] r s e = absurd (omega arith)
bytes_eq-append (x ∷ xs) (y ∷ ys) r s e = ground (arith, bytes_eq-append xs ys r s)

pub bytes_eq-node_key :
    (i j : ℕ) → i < 2 ^ 64 → j < 2 ^ 64 → bytes_eq (node_key i) (node_key j) ≡ (i == j)
unfolding bytes_eq node_key
bytes_eq-node_key i j hi hj = bytes_eq-put_be 8 i j hi hj

pub bytes_eq-dirent_key :
    (q r : ℕ) (m n : Bytes)
    → q < 2 ^ 64
    → r < 2 ^ 64
    → bytes_eq (dirent_key q m) (dirent_key r n) ≡ (q == r && bytes_eq m n)
unfolding bytes_eq dirent_key
bytes_eq-dirent_key q r m n hq hr =
    bytes_eq-append (put_be 8 q) (put_be 8 r) m n (length-put_be 8 q ∙ sym (length-put_be 8 r))
    ∙ ap (λ b. b && bytes_eq m n) (bytes_eq-put_be 8 q r hq hr)

pub node-ne-dirent : (i q : ℕ) (n : Bytes) → bytes_eq (node_key i) (dirent_key q n) ≡ false
unfolding bytes_eq node_key dirent_key
node-ne-dirent i q n = refl

pub dirent-ne-node : (i q : ℕ) (n : Bytes) → bytes_eq (dirent_key q n) (node_key i) ≡ false
unfolding bytes_eq node_key dirent_key
dirent-ne-node i q n = refl

pub next-ne-node : (i : ℕ) → bytes_eq store_next_inode_key (node_key i) ≡ false
unfolding bytes_eq node_key
next-ne-node i = refl

pub next-ne-dirent : (q : ℕ) (n : Bytes) → bytes_eq store_next_inode_key (dirent_key q n) ≡ false
unfolding bytes_eq dirent_key
next-ne-dirent q n = refl

pub node-ne-next : (i : ℕ) → bytes_eq (node_key i) store_next_inode_key ≡ false
unfolding bytes_eq node_key
node-ne-next i = refl

pub dirent-ne-next : (q : ℕ) (n : Bytes) → bytes_eq (dirent_key q n) store_next_inode_key ≡ false
unfolding bytes_eq dirent_key
dirent-ne-next q n = refl

and_true : (b : Bool) → (b && true) ≡ b
and_true true = refl
and_true false = refl

-- The range of a prefix holds just the keys that have it.
pub in_prefix_range :
    (prefix k : Bytes)
    → All IsByte prefix
    → All IsByte k
    → (not (bytes_lt k prefix) && below_hi (prefix_upper_bound prefix) k) ≡ has_prefix prefix k
in_prefix_range prefix k hp hk = elim (Option-cases (prefix_upper_bound prefix)) [
  | inl open_end ↦
      rw open_end
        (and_true (not (bytes_lt k prefix)) ∙ sym (prefix_upper_bound-none prefix k open_end hp hk))
  | inr (e, bounded) ↦ rw bounded (sym (prefix_upper_bound-has_prefix prefix e k bounded hp hk))
]
