-- ===== src/Index/Rekeyed.antt =====
-- Move: the writes of its batch, and the keys of a stripe.
use mathlib.Core.List.{append_assoc}
use place.Common.{
  ℕ, ◌+◌, ◌^◌, ◌<◌, ◌≡◌, refl, sym, ap, ◌∙◌, true, false, List, [], ◌∷◌, Option, none, some, arith,
  All, All-map, All-append, ==_self, ◌++◌, ◌==◌, length, Bool-cases, inl, inr,
}
use place.Common.Bytes.{IsByte, put_be, put_be-IsByte}
use place.Common.Lex.{has_prefix}
use place.Keys.{tag_stripe, fragment_key, fragment_stripe_prefix, is_fragment_key}
use place.Fragment.{Fragment, encode_fragments}
use place.Kv.{Batch, Bytes, delete}
use place.Kv.Entries.{entry, bytes_eq, bytes_eq_self, eq_of_bytes_eq}
use place.Kv.Entries.Lookup.{last_op, last_op-set, last_op-delete}
use place.Index.{delete_all}
use place.Index.Move.{fragment_keys, set_fragments}
use place.Index.Appended.{fragment_key_other}
use place.Index.Forget.{unless_found, unless_found_if}
use place.Index.Moved.{Rises}

-- Numbers that go up from `gen` are above it.
Rises-above : (gen : ℕ) (gs : List Fragment) → Rises gen gs → All (λ g. gen < g.seq) gs
Rises-above gen [] h = tt
Rises-above gen (g ∷ gs) (seq, more) =
    (omega (arith, seq), All-map gs (λ d k. omega (arith, k)) (Rises-above (gen + 1) gs more))

pub Rises-small :
    (gen : ℕ) (gs : List Fragment)
    → Rises gen gs
    → gen + length gs < 2 ^ 64
    → All (λ g. g.seq < 2 ^ 64) gs
Rises-small gen [] h room = tt
Rises-small gen (g ∷ gs) (seq, more) room =
    (omega (arith, seq), Rises-small (gen + 1) gs more (omega arith))

pub last_op-set_fragments_other :
    (inode st q : ℕ) (gs : List Fragment) (b : Batch) (o : Option Bytes)
    → q < 2 ^ 64
    → All (λ g. g.seq < 2 ^ 64) gs
    → All (λ g. (g.seq == q) ≡ false) gs
    → last_op (set_fragments inode st b gs) (fragment_key inode st q) o
      ≡ last_op b (fragment_key inode st q) o
unfolding set_fragments
last_op-set_fragments_other inode st q [] b o small below other = refl
last_op-set_fragments_other inode st q (g ∷ gs) b o small below other =
    last_op-set_fragments_other inode st q gs _ o small below.1 other.1
    ∙ last_op-set b (fragment_key inode st g.seq) _ (fragment_key inode st q) o
    ∙ rw (fragment_key_other inode st st g.seq q below.0 small other.0) refl

-- Every fragment that is set is there in the end.
pub last_op-set_fragments :
    (inode st gen : ℕ) (gs : List Fragment) (b : Batch) (o : Bytes → Option Bytes)
    → Rises gen gs
    → gen + length gs < 2 ^ 64
    → All
        (λ g.
          last_op
            (set_fragments inode st b gs)
            (fragment_key inode st g.seq)
            (o (fragment_key inode st g.seq))
          ≡ some (encode_fragments (g ∷ [])))
        gs
unfolding set_fragments
last_op-set_fragments inode st gen [] b o rises room = tt
last_op-set_fragments inode st gen (g ∷ gs) b o (seq, more) room =
    let k : Bytes = fragment_key inode st g.seq in
    (
      last_op-set_fragments_other inode st g.seq gs _ (o k) (omega (arith, seq))
            (Rises-small (gen + 1) gs more (omega arith))
            (All-map gs (λ d h. ground (arith, h, seq)) (Rises-above (gen + 1) gs more))
          ∙ last_op-set b k (encode_fragments (g ∷ [])) k (o k)
          ∙ rw (bytes_eq_self k) refl,
      last_op-set_fragments inode st (gen + 1) gs _ o more (omega arith),
    )

-- No key that was found is left.
pub last_op-delete_fragment_keys :
    (l : List (Bytes × Bytes)) (b : Batch) (q : Bytes) (o : Option Bytes)
    → is_fragment_key q ≡ true
    → last_op (delete_all b (fragment_keys l)) q o ≡ unless_found (entry l q) (last_op b q o)
unfolding delete_all fragment_keys entry
last_op-delete_fragment_keys [] b q o h = refl
last_op-delete_fragment_keys ((k, v) ∷ l) b q o h = elim (Bool-cases (is_fragment_key k)) [
  | inl named ↦ rw named (
      last_op-delete_fragment_keys l (delete b k) q o h
      ∙ ap (unless_found (entry l q)) (last_op-delete b k q o)
      ∙ unless_found_if (bytes_eq k q) (entry l q) (last_op b q o) v)
  | inr other ↦ elim (Bool-cases (bytes_eq k q)) [
    | inl same ↦ absurd (ground (arith, other, h, ap is_fragment_key (eq_of_bytes_eq k q same)))
    | inr apart ↦ rw (other, apart) (last_op-delete_fragment_keys l b q o h)
  ]
]

pub unless_found-same : (x : Option Bytes) → unless_found x x ≡ none
unless_found-same none = refl
unless_found-same (some v) = refl

pub fragment_key-named : (inode st q : ℕ) → is_fragment_key (fragment_key inode st q) ≡ true
unfolding is_fragment_key fragment_key put_be
fragment_key-named inode st q = refl

has_prefix_append : (xs ys : Bytes) → has_prefix xs (xs ++ ys) ≡ true
unfolding has_prefix
has_prefix_append [] ys = refl
has_prefix_append (x ∷ xs) ys = ground (arith, has_prefix_append xs ys, ==_self x)

pub fragment_key-has_prefix :
    (inode st q : ℕ) → has_prefix (fragment_stripe_prefix inode st) (fragment_key inode st q) ≡ true
unfolding fragment_key fragment_stripe_prefix
fragment_key-has_prefix inode st q =
    ap (λ l. has_prefix (fragment_stripe_prefix inode st) (tag_stripe ∷ l))
      (sym (append_assoc (put_be 8 inode) (put_be 4 st) (put_be 8 q)))
    ∙ has_prefix_append (fragment_stripe_prefix inode st) (put_be 8 q)

pub fragment_key-IsByte : (inode st q : ℕ) → All IsByte (fragment_key inode st q)
unfolding fragment_key
fragment_key-IsByte inode st q = (
  omega arith,
  All-append IsByte (put_be 8 inode) _ (put_be-IsByte 8 inode)
      (All-append IsByte (put_be 4 st) _ (put_be-IsByte 4 st) (put_be-IsByte 8 q)),
)

pub fragment_stripe_prefix-IsByte : (inode st : ℕ) → All IsByte (fragment_stripe_prefix inode st)
unfolding fragment_stripe_prefix
fragment_stripe_prefix-IsByte inode st =
    (omega arith, All-append IsByte (put_be 8 inode) _ (put_be-IsByte 8 inode) (put_be-IsByte 4 st))
