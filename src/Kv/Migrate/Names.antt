-- ===== src/Kv/Migrate/Names.antt =====
-- The legacy keys and their names in pebble: a tag in front of the same bytes.
use native.Mathlib.Nat.{div-div-eq-div-mul, pow-succ', pow-suc, pow-zero, div-one}
use place.Common.{
  ℕ, zero, suc, ◌+◌, ◌*◌, ◌/◌, ◌%◌, ◌^◌, ◌≤◌, ◌≡◌, refl, sym, ap, ◌∙◌, [], ◌∷◌, ◌++◌, arith, All,
  length, take, drop, leb, ◌==◌, Bool-cases, inl, inr, length-take_of_le, length-drop, eq_of_==,
}
use place.Common.Bytes.{IsByte, put_be, from_be, be_at}
use place.Errors.{Result, ok, ok_inj}
use place.Keys.{tag_node, tag_dirent, tag_stripe, node_key, dirent_key, legacy_stripe_key}
use place.Kv.{Bytes}
use place.Kv.Migrate.{map_node, map_dirent, map_stripe}

put_be-cons : (n v : ℕ) → put_be (suc n) v ≡ (v / 256 ^ n % 256) ∷ put_be n v
unfolding put_be
put_be-cons zero v = rw (pow-zero, div-one) refl
put_be-cons (suc n) v =
    let high : v / 256 / 256 ^ n ≡ v / 256 ^ suc n =
      div-div-eq-div-mul v 256 (256 ^ n) ∙ ap (v /◌) (sym (pow-succ' 256 n)) in
    rw (put_be-cons n (v / 256), high) refl

high_part : (xs : Bytes) (acc : ℕ) → All IsByte xs → from_be acc xs / 256 ^ length xs ≡ acc
unfolding from_be
high_part [] acc h = rw (pow-zero, div-one) refl
high_part (x ∷ xs) acc h =
    let low : (acc * 256 + x) / 256 ≡ acc = omega (arith, h.0) in
    ap (from_be (acc * 256 + x) xs /◌) (pow-suc 256 (length xs))
    ∙ sym (div-div-eq-div-mul _ (256 ^ length xs) 256)
    ∙ ap (◌/ 256) (high_part xs (acc * 256 + x) h.1)
    ∙ low

put_be-from_be : (xs : Bytes) (acc : ℕ) → All IsByte xs → put_be (length xs) (from_be acc xs) ≡ xs
unfolding from_be
put_be-from_be [] acc h = unfold put_be in refl
put_be-from_be (x ∷ xs) acc h =
    put_be-cons (length xs) (from_be (acc * 256 + x) xs)
    ∙ rw (high_part xs (acc * 256 + x) h.1, put_be-from_be xs (acc * 256 + x) h.1)
        (ap (◌∷ xs) (omega (arith, h.0)))

All-take : (n : ℕ) (xs : Bytes) → All IsByte xs → All IsByte (take n xs)
All-take zero xs h = tt
All-take (suc n) [] h = tt
All-take (suc n) (x ∷ xs) h = (h.0, All-take n xs h.1)

All-drop : (n : ℕ) (xs : Bytes) → All IsByte xs → All IsByte (drop n xs)
All-drop zero xs h = h
All-drop (suc n) [] h = tt
All-drop (suc n) (x ∷ xs) h = All-drop n xs h.1

-- A field that was read and is put back gives the bytes that stood there.
put_be-field :
    (k : Bytes) (off w : ℕ)
    → All IsByte k
    → off + w ≤ length k
    → put_be w (be_at k off w) ≡ take w (drop off k)
unfolding be_at
put_be-field k off w h inside =
    let len : length (take w (drop off k)) ≡ w =
      length-take_of_le w (drop off k) (omega (arith, length-drop off k)) in
    ap (λ n. put_be n (from_be 0 (take w (drop off k)))) (sym len)
    ∙ put_be-from_be (take w (drop off k)) 0 (All-take w (drop off k) (All-drop off k h))

-- A function that maps a legacy key puts a tag in front of it.
abbrev pub Tags : ℕ → (Bytes → Result Bytes) → Type 0
Tags t map_key = (k dk : Bytes) → All IsByte k → map_key k ≡ ok dk → dk ≡ t ∷ k

take_all : (xs : Bytes) → take (length xs) xs ≡ xs
take_all [] = refl
take_all (x ∷ xs) = ap (x ∷◌) (take_all xs)

take_append_drop : (n : ℕ) (xs : Bytes) → take n xs ++ drop n xs ≡ xs
take_append_drop zero xs = refl
take_append_drop (suc n) [] = refl
take_append_drop (suc n) (x ∷ xs) = ap (x ∷◌) (take_append_drop n xs)

pub map_node-Tags : Tags tag_node map_node
unfolding map_node node_key
map_node-Tags k dk h e = elim (Bool-cases (length k == 8)) [
  | inr other ↦ absurd (ground (arith, rw (other, map_node) at e))
  | inl eight ↦
      let len : length k ≡ 8 = eq_of_== (length k) 8 eight in
      sym (ok_inj _ dk (rw (eight, map_node) at e))
      ∙ ap (tag_node ∷◌)
          (put_be-field k 0 8 h (omega (arith, len)) ∙ ap (λ n. take n k) (sym len) ∙ take_all k)
]

pub map_dirent-Tags : Tags tag_dirent map_dirent
unfolding map_dirent dirent_key
map_dirent-Tags k dk h e = elim (Bool-cases (leb 8 (length k))) [
  | inr other ↦ absurd (ground (arith, rw (other, map_dirent) at e))
  | inl room ↦
      sym (ok_inj _ dk (rw (room, map_dirent) at e))
      ∙ ap (tag_dirent ∷◌)
          (ap (◌++ drop 8 k) (put_be-field k 0 8 h (ground arith)) ∙ take_append_drop 8 k)
]

pub map_stripe-Tags : Tags tag_stripe map_stripe
unfolding map_stripe legacy_stripe_key
map_stripe-Tags k dk h e = elim (Bool-cases (length k == 12)) [
  | inr other ↦ absurd (ground (arith, rw (other, map_stripe) at e))
  | inl twelve ↦
      let len : length k ≡ 12 = eq_of_== (length k) 12 twelve in
      let four : ◌≡◌ {A = ℕ} 4 (length (drop 8 k)) = omega (arith, length-drop 8 k, len) in
      sym (ok_inj _ dk (rw (twelve, map_stripe) at e))
      ∙ ap (tag_stripe ∷◌) (
          rw (put_be-field k 0 8 h (omega (arith, len)), put_be-field k 8 4 h (omega (arith, len)))
            (ap (take 8 k ++◌) (ap (λ n. take n (drop 8 k)) four ∙ take_all (drop 8 k))
              ∙ take_append_drop 8 k))
]
