-- ===== src/SegmentSet/Names.antt =====
-- segment/segment.go, segFileName, and the part of OpenSet that reads the names in the directory.
use place.Common.{
  ℕ, zero, suc, ◌-◌, ◌^◌, ◌<◌, ◌≡◌, refl, ◌⊎◌, inl, inr, sym, ap, ◌∙◌, Bool, true, false, ◌&&◌,
  ◌||◌, not, List, [], ◌∷◌, ◌++◌, Option, none, some, arith, ltb, leb, ltb_of_lt, if◌then◌else◌,
  length, take, drop, length-append, take-append, drop-append,
}
use place.Kv.{Bytes}
use place.Kv.Entries.{bytes_eq, bytes_eq_self}
use place.Sizes.{parse_digits, digits, is_empty}
use place.Sizes.Digits.{parse_digits-digits, digits-not_empty}

-- os.DirEntry
pub record DirEntry : Type 0 where
  pub name : Bytes
  pub is_dir : Bool

abbrev pub seg_suffix : Bytes
seg_suffix = b'.' ∷ b's' ∷ b'e' ∷ b'g' ∷ []

-- strings.HasSuffix and strings.TrimSuffix
abbrev pub has_suffix : Bytes → Bytes → Bool
has_suffix s suffix =
    leb (length suffix) (length s) && bytes_eq (drop (length s - length suffix) s) suffix

abbrev pub trim_suffix : Bytes → Bytes → Bytes
trim_suffix s suffix = if has_suffix s suffix then take (length s - length suffix) s else s

abbrev pub in_uint32 : Option ℕ → Option ℕ
in_uint32 none = none
in_uint32 (some n) = if ltb n (2 ^ 32) then some n else none

-- strconv.ParseUint(s, 10, 32)
unfoldable pub parse_uint32 : Bytes → Option ℕ
parse_uint32 s = if is_empty s then none else in_uint32 (parse_digits 0 s)

-- %010d of a uint32, which has 10 digits at most.
abbrev pub zeros : ℕ → Bytes
zeros zero = []
zeros (suc n) = b'0' ∷ zeros n

unfoldable pub seg_file_name : ℕ → Bytes
seg_file_name id = (zeros (10 - length (digits 10 id)) ++ digits 10 id) ++ seg_suffix

-- The id that the loop over the entries takes from one, or none if it goes on to the next.
unfoldable pub entry_id : DirEntry → Option ℕ
entry_id e =
    if e.is_dir || not (has_suffix e.name seg_suffix)
    then none
    else parse_uint32 (trim_suffix e.name seg_suffix)

abbrev pub with_id : Option ℕ → List ℕ → List ℕ
with_id none ids = ids
with_id (some id) ids = id ∷ ids

-- for _, e := range entries
unfoldable pub listed_ids : List DirEntry → List ℕ
listed_ids [] = []
listed_ids (e ∷ entries) = with_id (entry_id e) (listed_ids entries)

length_before : (s suffix : Bytes) → length (s ++ suffix) - length suffix ≡ length s
length_before s suffix = omega (arith, length-append s suffix)

has_suffix-append : (s suffix : Bytes) → has_suffix (s ++ suffix) suffix ≡ true
has_suffix-append s suffix =
    rw (length_before s suffix, drop-append s suffix, bytes_eq_self suffix)
      (ground (arith, length-append s suffix))

parse_digits-zeros : (n : ℕ) (s : Bytes) → parse_digits 0 (zeros n ++ s) ≡ parse_digits 0 s
unfolding parse_digits
parse_digits-zeros zero s = refl
parse_digits-zeros (suc n) s = parse_digits-zeros n s

is_empty-append : (s t : Bytes) → is_empty t ≡ false → is_empty (s ++ t) ≡ false
is_empty-append [] t h = h
is_empty-append (c ∷ s) t h = refl

parse_uint32-padded : (n id : ℕ) → id < 2 ^ 32 → parse_uint32 (zeros n ++ digits 10 id) ≡ some id
unfolding parse_uint32
parse_uint32-padded n id h =
    rw
      (
        is_empty-append (zeros n) (digits 10 id) (digits-not_empty 9 id),
        parse_digits-zeros n (digits 10 id),
        parse_digits-digits 9 id (omega arith),
      )
      (rw (ltb_of_lt id (2 ^ 32) h) refl)

entry_id-seg_file_name :
    (e : DirEntry) (id : ℕ)
    → id < 2 ^ 32
    → e.is_dir ≡ false
    → e.name ≡ seg_file_name id
    → entry_id e ≡ some id
unfolding entry_id seg_file_name
entry_id-seg_file_name e id h file named =
    let stem : Bytes = zeros (10 - length (digits 10 id)) ++ digits 10 id in
    rw (file, named, has_suffix-append stem seg_suffix)
      (ap parse_uint32 (
          ap (λ n. take n (stem ++ seg_suffix)) (length_before stem seg_suffix)
          ∙ take-append stem seg_suffix)
        ∙ parse_uint32-padded (10 - length (digits 10 id)) id h)

other_entry :
    (e : DirEntry) → (e.is_dir || not (has_suffix e.name seg_suffix)) ≡ true → entry_id e ≡ none
unfolding entry_id
other_entry e passed = rw passed refl

-- Each entry is a file that is named for the next id, or a directory or a file of another kind.
abbrev pub Holds : List DirEntry → List ℕ → Type 0
Holds [] ids = ids ≡ []
Holds (e ∷ entries) ids =
    ((e.is_dir || not (has_suffix e.name seg_suffix)) ≡ true) × Holds entries ids
    ⊎ ((id : ℕ) × (rest : List ℕ) × (ids ≡ id ∷ rest)
        × (id < 2 ^ 32)
        × (e.is_dir ≡ false)
        × (e.name ≡ seg_file_name id)
        × Holds entries rest)

-- OpenSet takes from a directory the ids that its segment files are named for, in the order of the
-- directory; what is a directory or has no name in .seg is passed over. An id is a uint32.
pub listed_ids-Holds :
    (entries : List DirEntry) (ids : List ℕ) → Holds entries ids → listed_ids entries ≡ ids
unfolding listed_ids
listed_ids-Holds [] ids h = sym h
listed_ids-Holds (e ∷ entries) ids (inl (passed, h)) =
    rw (other_entry e passed) (listed_ids-Holds entries ids h)
listed_ids-Holds (e ∷ entries) ids (inr (id, rest, same, small, file, named, h)) =
    rw (entry_id-seg_file_name e id small file named)
      (ap (id ∷◌) (listed_ids-Holds entries rest h) ∙ sym same)
