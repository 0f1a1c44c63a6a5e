-- ===== src/Kv/Migrate/Copied.antt =====
-- copyBucket: batches of 1024 writes against one batch of all.
use mathlib.Core.List.{append-nil, append_assoc}
use place.Common.{
  ℕ, suc, ◌%◌, ◌≡◌, refl, sym, ap, ◌∙◌, Bool, true, false, List, [], ◌∷◌, ◌++◌, Option, none, some,
  arith, All, All-map, ◌==◌, if◌then◌else◌, Bool-cases, inl, inr,
}
use place.Common.Bytes.{IsByte}
use place.Errors.{Result, ok, err, Result-cases}
use place.Kv.{Bytes, Op, put, Pebble, Batch, new_batch, set, commit}
use place.Kv.Entries.{entry, bytes_eq, apply_ops, IsSorted, bytes_lt-bytes_eq, bytes_eq_sym}
use place.Common.Lex.{bytes_lt}
use place.Kv.Entries.Lookup.{last_op, bytes_eq-false}
use place.Kv.Laws.{Laws, commit_lem}
use place.Kv.Migrate.{copy_loop, batch_size}
use place.Kv.Migrate.Names.{Tags}

-- The writes for a bucket.
abbrev pub puts : ℕ → List (Bytes × Bytes) → List Op
puts t [] = []
puts t ((k, v) ∷ l) = put (t ∷ k) v ∷ puts t l

abbrev pub KeyBytes : List (Bytes × Bytes) → Type 0
KeyBytes = All (λ (e : Bytes × Bytes). All IsByte e.0)

pub apply_ops-append :
    (xs ys : List Op) (l : List (Bytes × Bytes))
    → apply_ops (xs ++ ys) l ≡ apply_ops ys (apply_ops xs l)
unfolding apply_ops
apply_ops-append [] ys l = refl
apply_ops-append (Op.put k v ∷ xs) ys l = apply_ops-append xs ys _
apply_ops-append (Op.remove k ∷ xs) ys l = apply_ops-append xs ys _

absent :
    (k : Bytes) (l : List (Bytes × Bytes))
    → All (λ (e : Bytes × Bytes). bytes_eq e.0 k ≡ false) l
    → entry l k ≡ none
unfolding entry
absent k [] h = refl
absent k ((j, v) ∷ l) h = rw h.0 (absent k l h.1)

-- Keys above one that is `k` are not `k`.
above-absent :
    (j k : Bytes) (l : List (Bytes × Bytes))
    → bytes_eq j k ≡ true
    → All (λ (e : Bytes × Bytes). bytes_lt j e.0 ≡ true) l
    → entry l k ≡ none
above-absent j k l same h = absent k l (
    All-map l
      (λ (e : Bytes × Bytes) above.
        bytes_eq-false e.0 j k (bytes_eq_sym e.0 j ∙ bytes_lt-bytes_eq j e.0 above) same)
      h)

abbrev pub or_old : Option Bytes → Option Bytes → Option Bytes
or_old none o = o
or_old (some v) o = some v

-- What a bucket's writes leave under a key of one tag.
pub last_op-puts :
    (t : ℕ) (l : List (Bytes × Bytes)) (u : ℕ) (k : Bytes) (o : Option Bytes)
    → IsSorted l
    → last_op (puts t l) (u ∷ k) o ≡ (if t == u then or_old (entry l k) o else o)
unfolding last_op entry bytes_eq
last_op-puts t [] u k o h = ground arith
last_op-puts t ((j, v) ∷ l) u k o h = last_op-puts t l u k _ h.1 ∙ elim (Bool-cases (t == u)) [
  | inr other ↦ rw other refl
  | inl here ↦ elim (Bool-cases (bytes_eq j k)) [
    | inl same ↦ rw (here, same, above-absent j k l same h.0) refl
    | inr apart ↦ rw (here, apart) refl
  ]
]

pub last_op-puts_nil :
    (t : ℕ) (l : List (Bytes × Bytes)) (o : Option Bytes) → last_op (puts t l) [] o ≡ o
unfolding last_op bytes_eq
last_op-puts_nil t [] o = refl
last_op-puts_nil t ((k, v) ∷ l) o = last_op-puts_nil t l o

module _ {p : Pebble} (laws : Laws p) (map_key : Bytes → Result Bytes) (t : ℕ)
    (tags : Tags t map_key) where
  abbrev next_batch : ℕ → List (Bytes × Bytes) → p.Db × Result (Unit {0}) → p.Db × Result (Unit {0})
  next_batch count rest (dst, err e) = (dst, err e)
  next_batch count rest (dst, ok u) = copy_loop p map_key dst new_batch count rest

  abbrev full_or_not : Bool → p.Db → Batch → ℕ → List (Bytes × Bytes) → p.Db × Result (Unit {0})
  full_or_not true dst batch count rest = next_batch count rest (commit p dst batch)
  full_or_not false dst batch count rest = copy_loop p map_key dst batch count rest

  abbrev mapped :
      p.Db → Batch → ℕ → Bytes → List (Bytes × Bytes) → Result Bytes → p.Db × Result (Unit {0})
  mapped dst batch count v rest (err e) = (dst, err e)
  mapped dst batch count v rest (ok dk) =
      full_or_not (suc count % batch_size == 0) dst (set batch dk v) (suc count) rest

  copy_loop-mapped :
      (dst : p.Db) (batch : Batch) (count : ℕ) (k v : Bytes) (rest : List (Bytes × Bytes))
      → copy_loop p map_key dst batch count ((k, v) ∷ rest)
        ≡ mapped dst batch count v rest (map_key k)
  unfolding copy_loop
  copy_loop-mapped dst batch count k v rest = elim (Result-cases (map_key k)) [
    | inr (e, failed) ↦ rw (failed, copy_loop) refl
    | inl (dk, named) ↦ elim (Bool-cases (suc count % batch_size == 0)) [
      | inr more ↦ rw (named, more, copy_loop) refl
      | inl full ↦
          rw (named, full, copy_loop)
            (elim (Result-cases (commit p dst (set batch dk v)).1) [
              | inl (u, flushed) ↦ rw flushed refl
              | inr (e, failed) ↦ rw failed refl
            ])
    ]
  ]

  full_or_not-puts :
      (dst dst' : p.Db) (batch : Batch) (count : ℕ) (l : List (Bytes × Bytes))
      → ((d : p.Db) (b : Batch)
          → copy_loop p map_key d b count l ≡ (dst', ok tt)
          → laws.entries dst' ≡ apply_ops (b ++ puts t l) (laws.entries d))
      → (full : Bool) → full_or_not full dst batch count l ≡ (dst', ok tt)
      → laws.entries dst' ≡ apply_ops (batch ++ puts t l) (laws.entries dst)
  full_or_not-puts dst dst' batch count l rest false e = rest dst batch e
  full_or_not-puts dst dst' batch count l rest true e = elim (Result-cases (commit p dst batch).1) [
    | inr (x, failed) ↦
        absurd (
          ground (arith, ap (next_batch count l) (λ i. ((commit p dst batch).0, sym failed i)) ∙ e))
    | inl (u, flushed) ↦
        let mid : p.Db = (commit p dst batch).0 in
        rest mid new_batch (ap (next_batch count l) (λ i. (mid, sym flushed i)) ∙ e)
        ∙ ap (apply_ops (puts t l)) (commit_lem p laws dst mid batch (λ i. (mid, flushed i)))
        ∙ sym (apply_ops-append batch (puts t l) (laws.entries dst))
  ]

  -- A copy that succeeds leaves what one batch of all its writes would leave.
  pub copy_loop-puts :
      (dst dst' : p.Db) (batch : Batch) (count : ℕ) (l : List (Bytes × Bytes))
      → KeyBytes l
      → copy_loop p map_key dst batch count l ≡ (dst', ok tt)
      → laws.entries dst' ≡ apply_ops (batch ++ puts t l) (laws.entries dst)
  unfolding copy_loop set
  copy_loop-puts dst dst' batch count [] h done =
      commit_lem p laws dst dst' batch done
      ∙ ap (λ b. apply_ops b (laws.entries dst)) (sym (append-nil batch))
  copy_loop-puts dst dst' batch count ((k, v) ∷ l) h done =
      let begun : mapped dst batch count v l (map_key k) ≡ (dst', ok tt) =
        sym (copy_loop-mapped dst batch count k v l) ∙ done in
      elim (Result-cases (map_key k)) [
        | inr (e, failed) ↦
            absurd (ground (arith, ap (mapped dst batch count v l) (sym failed) ∙ begun))
        | inl (dk, named) ↦
            let next : full_or_not (suc count % batch_size == 0) dst (set batch dk v) (suc count) l
                ≡ (dst', ok tt) =
              ap (mapped dst batch count v l) (sym named) ∙ begun in
            let key : dk ≡ t ∷ k = tags k dk h.0 named in
            full_or_not-puts dst dst' (set batch dk v) (suc count) l
              (λ d b e. copy_loop-puts d dst' b (suc count) l h.1 e) (suc count % batch_size == 0)
              next
            ∙ ap (λ b. apply_ops b (laws.entries dst))
                (append_assoc batch (put dk v ∷ []) (puts t l)
                  ∙ ap (λ q. batch ++ put q v ∷ puts t l) key)
      ]
