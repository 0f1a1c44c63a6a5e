-- ===== src/Sizes/Examples.antt =====
-- Sizes on the command line at concrete texts.
use place.Common.{◌^◌, ◌≡◌, refl, none, some, false, arith, ◌-◌, [], ◌∷◌}
use place.Common.Int.{pos, negsuc}
use place.Kv.Entries.{bytes_eq}
use place.Sizes
use place.Sizes.Printed.{set-string}

-- A ParseFloat that reads nothing.
abbrev no_floats : Sizes.Floats
no_floats = record {
  Float = Unit;
  parse_float = λ s. none;
  is_negative = λ f. false;
  scaled = λ f u. pos 0;
}

set-string_example : Sizes.set no_floats (pos 7) (Sizes.string (some (pos 3072))) ≡ (pos 3072, none)
set-string_example = set-string no_floats (pos 7) (pos 3072) (omega arith)

-- "1536" has no unit; "3KiB" and "-2GiB" have.
format_bytes_mixed :
    (Sizes.format_bytes (pos 1536) ≡ b'1' ∷ b'5' ∷ b'3' ∷ b'6' ∷ [])
    × (Sizes.format_bytes (pos 3072) ≡ b'3' ∷ b'K' ∷ b'i' ∷ b'B' ∷ [])
    × (Sizes.format_bytes (negsuc (2 ^ 31 - 1)) ≡ b'-' ∷ b'2' ∷ b'G' ∷ b'i' ∷ b'B' ∷ [])
unfolding Sizes.format_bytes Sizes.format_units Sizes.digits
format_bytes_mixed = (refl, refl, refl)

-- " 4 Mb" is 4 MiB; "k" and "3x" are refused; "8192P" wraps to -2^63.
parse_bytes_mixed :
    (Sizes.parse_bytes no_floats (b' ' ∷ b'4' ∷ b' ' ∷ b'M' ∷ b'b' ∷ []) ≡ Sizes.ok (pos (2 ^ 22)))
    × (Sizes.parse_bytes no_floats (b'k' ∷ []) ≡ Sizes.err Sizes.no_number)
    × (Sizes.parse_bytes no_floats (b'3' ∷ b'x' ∷ []) ≡ Sizes.err Sizes.unknown_suffix)
    × (Sizes.parse_bytes no_floats (b'8' ∷ b'1' ∷ b'9' ∷ b'2' ∷ b'P' ∷ [])
        ≡ Sizes.ok (negsuc (2 ^ 63 - 1)))
unfolding Sizes.parse_bytes Sizes.trim_space Sizes.trim_left Sizes.trim_right Sizes.split_suffix
    Sizes.to_lower Sizes.unit_of bytes_eq Sizes.parse_int Sizes.parse_digits Sizes.to_int64
parse_bytes_mixed = (refl, refl, refl, refl)
