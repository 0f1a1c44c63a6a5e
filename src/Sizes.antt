-- ===== src/Sizes.antt =====
-- cmd/placefs/bytes.go: sizes on the command line. A text is its bytes, all ASCII. Floating point is an
-- argument: ParseFloat, the test for a negative number, and the product with a unit as an int64.
pub mod Digits
pub mod Printed
pub mod Examples
use place.Common.{
  ℕ, zero, suc, ◌+◌, ◌-◌, ◌*◌, ◌/◌, ◌%◌, ◌^◌, Bool, true, false, ◌&&◌, ◌||◌, List, [], ◌∷◌, ◌++◌,
  Option, none, some, ltb, leb, ◌==◌, if◌then◌else◌,
}
use place.Common.Int.{ℤ, pos, negsuc}
use place.Kv.{Bytes}
use place.Kv.Entries.{bytes_eq}

pub data SizeError : Type 0 where
  empty_value no_number unknown_suffix negative_size invalid_number : SizeError

pub data Result : Type 0 where
  ok : ℤ → Result
  err : SizeError → Result

-- strconv.ParseFloat, f < 0, and int64(f * float64(unit)).
pub record Floats : Type 1 where
  pub Float : Type 0
  pub parse_float : Bytes → Option Float
  pub is_negative : Float → Bool
  pub scaled : Float → ℕ → ℤ

abbrev pub is_space : ℕ → Bool
is_space c = c == 32 || (leb 9 c && leb c 13)

abbrev pub is_letter : ℕ → Bool
is_letter c = (leb b'a' c && leb c b'z') || (leb b'A' c && leb c b'Z')

abbrev pub is_digit : ℕ → Bool
is_digit c = leb b'0' c && leb c b'9'

abbrev pub is_empty : Bytes → Bool
is_empty [] = true
is_empty (c ∷ cs) = false

-- strings.TrimSpace, at the start and at the end.
unfoldable pub trim_left : Bytes → Bytes
trim_left [] = []
trim_left (c ∷ cs) = let rest = trim_left cs in if is_space c then rest else c ∷ cs

unfoldable pub trim_right : Bytes → Bytes
trim_right [] = []
trim_right (c ∷ cs) =
    let rest = trim_right cs in if is_empty rest && is_space c then [] else c ∷ rest

unfoldable pub trim_space : Bytes → Bytes
unfolding trim_left trim_right
trim_space s = trim_right (trim_left s)

-- The loop over `end`: what stands before the trailing run of letters, and that run.
unfoldable pub split_suffix : Bytes → Bytes × Bytes
split_suffix [] = ([], [])
split_suffix (c ∷ cs) =
    let (num, suf) = split_suffix cs in
    if is_empty num && is_letter c then ([], c ∷ suf) else (c ∷ num, suf)

unfoldable pub to_lower : Bytes → Bytes
to_lower [] = []
to_lower (c ∷ cs) = (if leb b'A' c && leb c b'Z' then c + 32 else c) ∷ to_lower cs

-- switch suf
abbrev matches : ℕ → Bytes → Bool
matches c suf =
    bytes_eq suf (c ∷ []) || (bytes_eq suf (c ∷ b'b' ∷ []) || bytes_eq suf (c ∷ b'i' ∷ b'b' ∷ []))

unfoldable pub unit_of : Bytes → Option ℕ
unit_of suf =
    if bytes_eq suf [] || bytes_eq suf (b'b' ∷ [])
    then some 1
    else if matches b'k' suf
    then some (2 ^ 10)
    else if matches b'm' suf
    then some (2 ^ 20)
    else if matches b'g' suf
    then some (2 ^ 30)
    else if matches b't' suf
    then some (2 ^ 40)
    else if matches b'p' suf
    then some (2 ^ 50)
    else none

-- strconv.ParseInt(s, 10, 64): a sign or none, and digits, in the range of an int64.
unfoldable pub parse_digits : ℕ → Bytes → Option ℕ
parse_digits acc [] = some acc
parse_digits acc (c ∷ cs) =
    let rest = parse_digits (acc * 10 + (c - 48)) cs in if is_digit c then rest else none

abbrev in_range : Bool → ℕ → Option ℤ
in_range false n = if ltb n (2 ^ 63) then some (pos n) else none
in_range true n =
    if n == 0 then some (pos 0) else if leb n (2 ^ 63) then some (negsuc (n - 1)) else none

abbrev pub signed : Bool → Option ℕ → Option ℤ
signed minus none = none
signed minus (some n) = in_range minus n

abbrev pub parse_magnitude : Bool → Bytes → Option ℤ
parse_magnitude minus [] = none
parse_magnitude minus (c ∷ cs) = signed minus (parse_digits 0 (c ∷ cs))

unfoldable pub parse_int : Bytes → Option ℤ
unfolding parse_digits
parse_int [] = none
parse_int (c ∷ cs) =
    if c == b'-'
    then parse_magnitude true cs
    else if c == b'+'
    then parse_magnitude false cs
    else parse_magnitude false (c ∷ cs)

-- The product of a count and a unit as an int64, which wraps.
unfoldable pub to_int64 : ℕ → ℤ
to_int64 m = let r = m % 2 ^ 64 in if ltb r (2 ^ 63) then pos r else negsuc (2 ^ 64 - 1 - r)

module _ (fl : Floats) where
  abbrev float_size : Option fl.Float → ℕ → Result
  float_size none unit = err invalid_number
  float_size (some f) unit = if fl.is_negative f then err negative_size else ok (fl.scaled f unit)

  abbrev pub sized : Bytes → ℕ → Option ℤ → Result
  sized num unit (some (pos n)) = ok (to_int64 (n * unit))
  sized num unit (some (negsuc n)) = err negative_size
  sized num unit none = float_size (fl.parse_float num) unit

  abbrev with_unit : Bytes → Option ℕ → Result
  with_unit num none = err unknown_suffix
  with_unit num (some unit) = sized num unit (parse_int num)

  unfoldable pub parse_bytes : Bytes → Result
  parse_bytes text =
      let s = trim_space text in
      let (num, suf) = split_suffix s in
      let num_part = trim_space num in
      if is_empty s
      then err empty_value
      else if is_empty num_part
      then err no_number
      else with_unit num_part (unit_of (to_lower (trim_space suf)))

  -- The value that Set leaves, and its error.
  abbrev pub assigned : ℤ → Result → ℤ × Option SizeError
  assigned b (ok v) = (v, none)
  assigned b (err e) = (b, some e)

  unfoldable pub set : ℤ → Bytes → ℤ × Option SizeError
  set b text = assigned b (parse_bytes text)

-- strconv.FormatInt and %d of a number that is not negative, with the rounds that are left.
unfoldable pub digits : ℕ → ℕ → Bytes
digits zero n = []
digits (suc f) n =
    let rest = digits f (n / 10) in if ltb n 10 then (48 + n) ∷ [] else rest ++ (48 + n % 10) ∷ []

-- An int64 has 19 digits at most.
abbrev decimal : ℕ → Bytes
decimal n = digits 20 n

abbrev iec : ℕ → Bytes
iec c = c ∷ b'i' ∷ b'B' ∷ []

-- for _, u := range units
unfoldable pub format_units : ℕ → List (ℕ × Bytes) → Bytes
format_units n [] = decimal n
format_units n ((div, name) ∷ units) =
    let rest = format_units n units in if n % div == 0 then decimal (n / div) ++ name else rest

abbrev pub units : List (ℕ × Bytes)
units =
    (2 ^ 50, iec b'P')
    ∷ (2 ^ 40, iec b'T')
    ∷ (2 ^ 30, iec b'G')
    ∷ (2 ^ 20, iec b'M')
    ∷ (2 ^ 10, iec b'K')
    ∷ []

-- A negative size has the text of its magnitude behind a minus sign: its remainders and quotients are
-- those of the magnitude, negated.
unfoldable pub format_bytes : ℤ → Bytes
unfolding format_units digits
format_bytes (pos n) = if n == 0 then b'0' ∷ [] else format_units n units
format_bytes (negsuc n) = b'-' ∷ format_units (suc n) units

-- A nil receiver is none.
unfoldable pub string : Option ℤ → Bytes
string none = b'0' ∷ []
string (some b) = format_bytes b
