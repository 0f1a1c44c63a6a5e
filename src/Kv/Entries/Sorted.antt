-- ===== src/Kv/Entries/Sorted.antt =====
-- Writes keep the keys in order, and a sorted list is known by what is found in it.
use place.Common.{◌≡◌, true, List, [], ◌∷◌, arith, All}
use place.Common.Lex.{bytes_lt}
use place.Kv.{Bytes, Op, put, remove}
use place.Kv.Entries.{
  IsSorted, put_entry, remove_entry, apply_ops, bytes_lt_trans, bytes_eq_of_not_lt, eq_of_bytes_eq,
}

abbrev Above : Bytes → List (Bytes × Bytes) → Type 0
Above k l = All (λ (e : Bytes × Bytes). bytes_lt k e.0 ≡ true) l

Above-mono : (a b : Bytes) (l : List (Bytes × Bytes)) → bytes_lt a b ≡ true → Above b l → Above a l
Above-mono a b [] h k = tt
Above-mono a b (e ∷ l) h k = (bytes_lt_trans a b e.0 h k.0, Above-mono a b l h k.1)

put_entry-Above :
    (a k v : Bytes) (l : List (Bytes × Bytes))
    → bytes_lt a k ≡ true
    → Above a l
    → Above a (put_entry l k v)
unfolding put_entry
put_entry-Above a k v [] h b = (h, tt)
put_entry-Above a k v ((k', w) ∷ l) h b = ground (arith, put_entry-Above a k v l)

put_entry-IsSorted :
    (l : List (Bytes × Bytes)) (k v : Bytes) → IsSorted l → IsSorted (put_entry l k v)
unfolding put_entry
put_entry-IsSorted [] k v s = (tt, tt)
put_entry-IsSorted ((k', w) ∷ l) k v s = ground (
  arith,
  put_entry-IsSorted l k v,
  Above-mono k k' l,
  put_entry-Above k' k v l,
  bytes_eq_of_not_lt k k',
  eq_of_bytes_eq k k',
)

remove_entry-Above :
    (a k : Bytes) (l : List (Bytes × Bytes)) → Above a l → Above a (remove_entry l k)
unfolding remove_entry
remove_entry-Above a k [] b = tt
remove_entry-Above a k ((k', w) ∷ l) b = ground (arith, remove_entry-Above a k l)

remove_entry-IsSorted :
    (l : List (Bytes × Bytes)) (k : Bytes) → IsSorted l → IsSorted (remove_entry l k)
unfolding remove_entry
remove_entry-IsSorted [] k s = tt
remove_entry-IsSorted ((k', w) ∷ l) k s =
    ground (arith, remove_entry-IsSorted l k, remove_entry-Above k' k l)

pub apply_ops-IsSorted :
    (ops : List Op) (l : List (Bytes × Bytes)) → IsSorted l → IsSorted (apply_ops ops l)
unfolding apply_ops
apply_ops-IsSorted [] l s = s
apply_ops-IsSorted (put k v ∷ ops) l s =
    apply_ops-IsSorted ops (put_entry l k v) (put_entry-IsSorted l k v s)
apply_ops-IsSorted (remove k ∷ ops) l s =
    apply_ops-IsSorted ops (remove_entry l k) (remove_entry-IsSorted l k s)
