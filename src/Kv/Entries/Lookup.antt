-- ===== src/Kv/Entries/Lookup.antt =====
-- What is found under a key after writes.
use place.Common.{
  ◌≡◌, refl, ap, ◌∙◌, true, false, not, ◌&&◌, List, [], ◌∷◌, ◌++◌, Option, none, some, arith,
  if◌then◌else◌,
}
use place.Common.Lex.{bytes_lt}
use place.Kv.{Bytes, Op, put, remove, Batch, set, delete}
use place.Kv.Entries.{
  bytes_eq, entry, put_entry, remove_entry, apply_ops, range, below_hi, eq_of_bytes_eq,
  bytes_lt-bytes_eq, bytes_eq_of_not_lt,
}

-- The value under `q` after the writes, where it was `o` before.
unfoldable pub last_op : List Op → Bytes → Option Bytes → Option Bytes
last_op [] q o = o
last_op (put k v ∷ ops) q o = last_op ops q (if bytes_eq k q then some v else o)
last_op (remove k ∷ ops) q o = last_op ops q (if bytes_eq k q then none else o)

pub bytes_eq_left : (a b c : Bytes) → bytes_eq a b ≡ true → bytes_eq a c ≡ bytes_eq b c
bytes_eq_left a b c e = ap (λ x. bytes_eq x c) (eq_of_bytes_eq a b e)

pub bytes_eq-false :
    (a b c : Bytes) → bytes_eq a b ≡ false → bytes_eq b c ≡ true → bytes_eq a c ≡ false
bytes_eq-false a b c e f = rw (← eq_of_bytes_eq b c f) e

pub entry-put_entry :
    (l : List (Bytes × Bytes)) (k v q : Bytes)
    → entry (put_entry l k v) q ≡ (if bytes_eq k q then some v else entry l q)
unfolding entry put_entry
entry-put_entry [] k v q = refl
entry-put_entry ((k', w) ∷ l) k v q = ground (
  arith,
  entry-put_entry l k v q,
  bytes_lt-bytes_eq k' k,
  bytes_eq_of_not_lt k k',
  bytes_eq_left k k' q,
  bytes_eq-false k' k q,
)

pub entry-remove_entry :
    (l : List (Bytes × Bytes)) (k q : Bytes)
    → entry (remove_entry l k) q ≡ (if bytes_eq k q then none else entry l q)
unfolding entry remove_entry
entry-remove_entry [] k q = ground arith
entry-remove_entry ((k', w) ∷ l) k q =
    ground (arith, entry-remove_entry l k q, bytes_eq_left k' k q, bytes_eq-false k' k q)

pub entry-apply_ops :
    (ops : List Op) (l : List (Bytes × Bytes)) (q : Bytes)
    → entry (apply_ops ops l) q ≡ last_op ops q (entry l q)
unfolding apply_ops last_op
entry-apply_ops [] l q = refl
entry-apply_ops (put k v ∷ ops) l q =
    entry-apply_ops ops (put_entry l k v) q ∙ ap (last_op ops q) (entry-put_entry l k v q)
entry-apply_ops (remove k ∷ ops) l q =
    entry-apply_ops ops (remove_entry l k) q ∙ ap (last_op ops q) (entry-remove_entry l k q)

pub last_op-append :
    (xs ys : List Op) (q : Bytes) (o : Option Bytes)
    → last_op (xs ++ ys) q o ≡ last_op ys q (last_op xs q o)
unfolding last_op
last_op-append [] ys q o = refl
last_op-append (put k v ∷ xs) ys q o = last_op-append xs ys q (if bytes_eq k q then some v else o)
last_op-append (remove k ∷ xs) ys q o = last_op-append xs ys q (if bytes_eq k q then none else o)

in_range_left :
    (a b lo : Bytes) (hi : Option Bytes)
    → bytes_eq a b ≡ true
    → (not (bytes_lt a lo) && below_hi hi a) ≡ (not (bytes_lt b lo) && below_hi hi b)
in_range_left a b lo hi e = ap (λ x. not (bytes_lt x lo) && below_hi hi x) (eq_of_bytes_eq a b e)

pub entry-range :
    (l : List (Bytes × Bytes)) (lo : Bytes) (hi : Option Bytes) (q : Bytes)
    → entry (range l lo hi) q ≡ (if not (bytes_lt q lo) && below_hi hi q then entry l q else none)
unfolding entry range
entry-range [] lo hi q = ground arith
entry-range ((k, v) ∷ l) lo hi q = ground (arith, entry-range l lo hi q, in_range_left k q lo hi)

pub last_op-set :
    (b : Batch) (k v q : Bytes) (o : Option Bytes)
    → last_op (set b k v) q o ≡ (if bytes_eq k q then some v else last_op b q o)
unfolding set last_op
last_op-set b k v q o = last_op-append b (put k v ∷ []) q o

pub last_op-delete :
    (b : Batch) (k q : Bytes) (o : Option Bytes)
    → last_op (delete b k) q o ≡ (if bytes_eq k q then none else last_op b q o)
unfolding delete last_op
last_op-delete b k q o = last_op-append b (remove k ∷ []) q o
