-- ===== src/Keys/Examples.antt =====
-- Runs of the key functions at concrete inputs, and the theorems at inputs that meet their
-- hypotheses.
use place.Common.{◌≡◌, refl, List, [], ◌∷◌, some, none, ℕ, arith, not, ◌&&◌}
use place.Common.Lex.{bytes_lt, has_prefix}
use place.Keys.{prefix_upper_bound}
use place.Keys.Prefix.{prefix_upper_bound-has_prefix, prefix_upper_bound-none}

abbrev carries : List ℕ
carries = 0x73 ∷ 0xff ∷ 0xff ∷ []

abbrev inner_key : List ℕ
inner_key = 0x73 ∷ 0xff ∷ 0xff ∷ 7 ∷ []

carries_bound : prefix_upper_bound carries ≡ some (0x74 ∷ [])
unfolding prefix_upper_bound
carries_bound = refl

all_ones_bound : prefix_upper_bound (0xff ∷ 0xff ∷ []) ≡ none
unfolding prefix_upper_bound
all_ones_bound = refl

prefix_upper_bound-has_prefix_example :
    has_prefix carries inner_key
    ≡ (not (bytes_lt inner_key carries) && bytes_lt inner_key (0x74 ∷ []))
prefix_upper_bound-has_prefix_example =
    prefix_upper_bound-has_prefix carries (0x74 ∷ []) inner_key carries_bound (omega arith)
      (omega arith)

prefix_upper_bound-none_example :
    has_prefix (0xff ∷ 0xff ∷ []) (0xff ∷ 3 ∷ [])
    ≡ not (bytes_lt (0xff ∷ 3 ∷ []) (0xff ∷ 0xff ∷ []))
prefix_upper_bound-none_example =
    prefix_upper_bound-none (0xff ∷ 0xff ∷ []) (0xff ∷ 3 ∷ []) all_ones_bound (omega arith)
      (omega arith)
