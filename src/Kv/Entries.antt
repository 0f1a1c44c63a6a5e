-- ===== src/Kv/Entries.antt =====
-- Sorted lists of keys and values, as a reference for what a key/value store holds.
pub mod Lookup
pub mod Sorted
use place.Common.{
  ℕ, ◌≡◌, refl, sym, ap, ◌∙◌, Bool, true, false, not, ◌&&◌, List, [], ◌∷◌, ◌++◌, Option, none, some,
  arith, All, ltb, ◌==◌, if◌then◌else◌, Bool-cases, inl, inr,
}
use place.Common.Lex.{bytes_lt}
use place.Kv.{Bytes, Op, put, remove}

unfoldable pub bytes_eq : Bytes → Bytes → Bool
bytes_eq [] [] = true
bytes_eq [] (y ∷ ys) = false
bytes_eq (x ∷ xs) [] = false
bytes_eq (x ∷ xs) (y ∷ ys) = if x == y then bytes_eq xs ys else false

unfoldable pub entry : List (Bytes × Bytes) → Bytes → Option Bytes
entry [] k = none
entry ((k', v) ∷ l) k = if bytes_eq k' k then some v else entry l k

unfoldable pub put_entry : List (Bytes × Bytes) → Bytes → Bytes → List (Bytes × Bytes)
put_entry [] k v = (k, v) ∷ []
put_entry ((k', w) ∷ l) k v =
    let rest = put_entry l k v in
    if bytes_lt k k'
    then (k, v) ∷ (k', w) ∷ l
    else if bytes_lt k' k
    then (k', w) ∷ rest
    else (k, v) ∷ l

unfoldable pub remove_entry : List (Bytes × Bytes) → Bytes → List (Bytes × Bytes)
remove_entry [] k = []
remove_entry ((k', w) ∷ l) k =
    let rest = remove_entry l k in if bytes_eq k' k then rest else (k', w) ∷ rest

unfoldable pub apply_ops : List Op → List (Bytes × Bytes) → List (Bytes × Bytes)
apply_ops [] l = l
apply_ops (put k v ∷ ops) l = apply_ops ops (put_entry l k v)
apply_ops (remove k ∷ ops) l = apply_ops ops (remove_entry l k)

-- The keys go up.
abbrev pub IsSorted : List (Bytes × Bytes) → Type 0
IsSorted [] = Unit {0}
IsSorted ((k, v) ∷ l) = All (λ (e : Bytes × Bytes). bytes_lt k e.0 ≡ true) l × IsSorted l

abbrev pub below_hi : Option Bytes → Bytes → Bool
below_hi none k = true
below_hi (some hi) k = bytes_lt k hi

unfoldable pub range : List (Bytes × Bytes) → Bytes → Option Bytes → List (Bytes × Bytes)
range [] lo hi = []
range ((k, v) ∷ l) lo hi =
    let rest = range l lo hi in if not (bytes_lt k lo) && below_hi hi k then (k, v) ∷ rest else rest

pub eq_of_bytes_eq : (a b : Bytes) → bytes_eq a b ≡ true → a ≡ b
unfolding bytes_eq
eq_of_bytes_eq [] [] h = refl
eq_of_bytes_eq [] (y ∷ b) h = cc
eq_of_bytes_eq (x ∷ a) [] h = cc
eq_of_bytes_eq (x ∷ a) (y ∷ b) h = ground (arith, eq_of_bytes_eq a b)

pub bytes_eq_self : (a : Bytes) → bytes_eq a a ≡ true
unfolding bytes_eq
bytes_eq_self [] = refl
bytes_eq_self (x ∷ a) = ground (arith, bytes_eq_self a)

pub bytes_eq_sym : (a b : Bytes) → bytes_eq a b ≡ bytes_eq b a
unfolding bytes_eq
bytes_eq_sym [] [] = refl
bytes_eq_sym [] (y ∷ b) = refl
bytes_eq_sym (x ∷ a) [] = refl
bytes_eq_sym (x ∷ a) (y ∷ b) = ground (arith, bytes_eq_sym a b)

pub bytes_lt_trans :
    (a b c : Bytes) → bytes_lt a b ≡ true → bytes_lt b c ≡ true → bytes_lt a c ≡ true
unfolding bytes_lt
bytes_lt_trans [] [] c h k = cc
bytes_lt_trans [] (y ∷ b) [] h k = cc
bytes_lt_trans [] (y ∷ b) (z ∷ c) h k = refl
bytes_lt_trans (x ∷ a) [] c h k = cc
bytes_lt_trans (x ∷ a) (y ∷ b) [] h k = cc
bytes_lt_trans (x ∷ a) (y ∷ b) (z ∷ c) h k = ground (arith, bytes_lt_trans a b c)

pub bytes_lt-bytes_eq : (a b : Bytes) → bytes_lt a b ≡ true → bytes_eq a b ≡ false
unfolding bytes_lt bytes_eq
bytes_lt-bytes_eq [] [] h = cc
bytes_lt-bytes_eq [] (y ∷ b) h = refl
bytes_lt-bytes_eq (x ∷ a) [] h = refl
bytes_lt-bytes_eq (x ∷ a) (y ∷ b) h = ground (arith, bytes_lt-bytes_eq a b)

pub bytes_eq_of_not_lt :
    (a b : Bytes) → bytes_lt a b ≡ false → bytes_lt b a ≡ false → bytes_eq a b ≡ true
unfolding bytes_lt bytes_eq
bytes_eq_of_not_lt [] [] h k = refl
bytes_eq_of_not_lt [] (y ∷ b) h k = cc
bytes_eq_of_not_lt (x ∷ a) [] h k = cc
bytes_eq_of_not_lt (x ∷ a) (y ∷ b) h k = ground (arith, bytes_eq_of_not_lt a b)
