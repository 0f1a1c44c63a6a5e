-- ===== src/Index/Upkeep.antt =====
-- index/index.go, IterStripes: the fragments of each stripe added up, and handed to a visitor.
use place.Common.{
  ℕ, ◌+◌, Bool, true, false, ◌&&◌, List, [], ◌∷◌, ◌++◌, Option, none, some, ◌==◌, if◌then◌else◌,
}
use place.Errors.{Result, ok, err}
use place.Keys.{
  stripe_all_prefix, prefix_upper_bound, is_fragment_key, stripe_inode_from_fragment_key,
  stripe_id_from_fragment_key,
}
use place.Fragment.{Fragment, decode_fragments, canonical_view, tier_hot, tier_cold}
use place.Kv.{Bytes, Pebble, iter}
use place.Index.{Index, first_fragment}

pub record StripeInfo : Type 0 where
  pub inode : ℕ
  pub stripe_id : ℕ
  pub hot_bytes : ℕ
  pub cold_bytes : ℕ
  pub live_bytes : ℕ

-- The stripe that is being accumulated.
pub record Stripe : Type 0 where
  pub inode : ℕ
  pub stripe_id : ℕ
  pub frags : List Fragment
  pub hot_bytes : ℕ
  pub cold_bytes : ℕ

unfoldable pub sum_lengths : List Fragment → ℕ
sum_lengths [] = 0
sum_lengths (f ∷ fs) = f.length + sum_lengths fs

unfoldable pub stripe_info : Stripe → StripeInfo
stripe_info s = record {
  inode = s.inode;
  stripe_id = s.stripe_id;
  hot_bytes = s.hot_bytes;
  cold_bytes = s.cold_bytes;
  live_bytes = sum_lengths (canonical_view s.frags);
}

unfoldable pub add_fragment : Stripe → Fragment → Stripe
add_fragment s f = record s {
  frags = s.frags ++ f ∷ [];
  hot_bytes = if f.tier == tier_hot then s.hot_bytes + f.length else s.hot_bytes;
  cold_bytes =
      if f.tier == tier_hot
      then s.cold_bytes
      else if f.tier == tier_cold
      then s.cold_bytes + f.length
      else s.cold_bytes;
}

abbrev pub new_stripe : ℕ → ℕ → Stripe
new_stripe inode stripe_id = record {
  inode = inode;
  stripe_id = stripe_id;
  frags = [];
  hot_bytes = 0;
  cold_bytes = 0;
}

-- The stripes of a scan in order, each with its fragments added up; `none` is a panic on an empty
-- value. `cur` is the stripe at hand.
unfoldable pub stripes_in : Option Stripe → List (Bytes × Bytes) → Option (List StripeInfo)
stripes_in none [] = some []
stripes_in (some s) [] = some (stripe_info s ∷ [])
stripes_in cur ((k, v) ∷ rest) =
    let inode = stripe_inode_from_fragment_key k in
    let stripe_id = stripe_id_from_fragment_key k in
    elim (is_fragment_key k) [
      | false ↦ stripes_in cur rest
      | true ↦ elim (first_fragment (decode_fragments v)) [
        | none ↦ none
        | some f ↦ elim cur [
          | none ↦ stripes_in (some (add_fragment (new_stripe inode stripe_id) f)) rest
          | some s ↦ elim (inode == s.inode && stripe_id == s.stripe_id) [
            | true ↦ stripes_in (some (add_fragment s f)) rest
            | false ↦ elim (stripes_in (some (add_fragment (new_stripe inode stripe_id) f)) rest) [
              | none ↦ none
              | some infos ↦ some (stripe_info s ∷ infos)
            ]
          ]
        ]
      ]
    ]

-- fn is called until it returns false.
unfoldable pub visit_infos {ℓ} :
    {S : Type ℓ} → (StripeInfo → S → S × Bool) → List StripeInfo → S → S
visit_infos fn [] s = s
visit_infos fn (info ∷ infos) s =
    let (s', goes_on) = fn info s in elim goes_on [ true ↦ visit_infos fn infos s' | false ↦ s' ]

-- `none` is a panic on an empty value.
unfoldable pub iter_stripes {ℓ} :
    {S : Type ℓ} (p : Pebble) → Index p → (StripeInfo → S → S × Bool) → S → Option (Result S)
iter_stripes p idx fn s =
    elim (iter p idx.db stripe_all_prefix (prefix_upper_bound stripe_all_prefix)) [
      | err e ↦ some (err e)
      | ok entries ↦ elim (stripes_in none entries) [
        | none ↦ none
        | some infos ↦ some (ok (visit_infos fn infos s))
      ]
    ]
