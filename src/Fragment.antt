-- ===== src/Fragment.antt =====
-- index/fragment.go: fragments, their encoding, and the plan that answers a read. A file's offsets
-- are numbers (the code's int64 never goes below 0 or past 2^63 for them), a tier is its byte.
pub mod Codec
pub mod Cover
pub mod Shadow
pub mod Owner
pub mod Tiles
pub mod Plan
pub mod Canonical
mod Examples
use place.Common.{
  ℕ, zero, suc, ◌+◌, ◌-◌, ◌*◌, ◌/◌, ◌%◌, ◌^◌, Bool, true, false, List, [], ◌∷◌, ◌++◌, map, ltb, leb,
  ◌==◌, if◌then◌else◌, ◌||◌, length, drop,
}
use place.Common.Bytes.{put_le, le_at}

-- segment.Tier, a uint8 with these constants.
abbrev pub tier_hot : ℕ
tier_hot = 1

abbrev pub tier_cold : ℕ
tier_cold = 2

abbrev pub tier_mem : ℕ
tier_mem = 3

pub record Fragment : Type 0 where
  pub seq : ℕ
  pub logical_off : ℕ
  pub length : ℕ
  pub tier : ℕ
  pub segment_id : ℕ
  pub segment_offset : ℕ

-- segment.Locator
pub record Locator : Type 0 where
  pub tier : ℕ
  pub segment_id : ℕ
  pub offset : ℕ
  pub length : ℕ

pub record ReadSlice : Type 0 where
  pub logical_off : ℕ
  pub length : ℕ
  pub sparse : Bool
  pub locator : Locator

abbrev pub fragment_encoded_size : ℕ
fragment_encoded_size = 40

-- The 40 bytes that encodeFragmentInto writes: bytes 25 to 27 are padding.
unfoldable pub encode_fragment_into : Fragment → List ℕ
encode_fragment_into f =
    put_le 8 f.seq
    ++ (put_le 8 f.logical_off
        ++ (put_le 8 f.length
            ++ ((f.tier % 256) ∷ 0 ∷ 0 ∷ 0 ∷ [])
            ++ (put_le 4 f.segment_id ++ put_le 8 f.segment_offset)))

unfoldable pub decode_fragment : List ℕ → Fragment
unfolding le_at
decode_fragment buf = record {
  seq = le_at buf 0 8;
  logical_off = le_at buf 8 8;
  length = le_at buf 16 8;
  tier = le_at buf 24 1;
  segment_id = le_at buf 28 4;
  segment_offset = le_at buf 32 8;
}

unfoldable pub encode_fragments : List Fragment → List ℕ
encode_fragments [] = []
encode_fragments (f ∷ frags) = encode_fragment_into f ++ encode_fragments frags

-- The loop of decodeFragments, with the rounds that are left; `buf` is `buf[i*40:]`.
unfoldable pub decode_loop : ℕ → List ℕ → List Fragment
decode_loop zero buf = []
decode_loop (suc n) buf = decode_fragment buf ∷ decode_loop n (drop fragment_encoded_size buf)

unfoldable pub decode_fragments : List ℕ → List Fragment
decode_fragments buf = decode_loop (length buf / fragment_encoded_size) buf

-- sort.Slice by a key. Entries with one key keep their order here; the code leaves that open. Slices
-- are disjoint, and seqs come from one counter: an extent that is being flushed and the fragment
-- that the flush has committed for it have one seq, and the same bytes.
module _ {A : Type 0} (before : A → A → Bool) where
  unfoldable pub insert_by : A → List A → List A
  insert_by a [] = a ∷ []
  insert_by a (b ∷ bs) = if before b a then b ∷ insert_by a bs else a ∷ b ∷ bs

  unfoldable pub sort_by : List A → List A
  unfolding insert_by
  sort_by [] = []
  sort_by (a ∷ l) = insert_by a (sort_by l)

-- sorted[i].Seq > sorted[j].Seq
abbrev pub newer : Fragment → Fragment → Bool
newer f g = ltb g.seq f.seq

pub record Ivl : Type 0 where
  pub start : ℕ
  pub end : ℕ

abbrev pub frag_end : Fragment → ℕ
frag_end f = f.logical_off + f.length

-- fEnd <= u.start || fStart >= u.end
unfoldable pub apart : Fragment → Ivl → Bool
apart f u = leb (frag_end f) u.start || leb u.end f.logical_off

unfoldable pub ov_start : Fragment → Ivl → ℕ
ov_start f u = if ltb f.logical_off u.start then u.start else f.logical_off

unfoldable pub ov_end : Fragment → Ivl → ℕ
ov_end f u = if ltb u.end (frag_end f) then u.end else frag_end f

-- What one round of the inner loop appends to `next`.
unfoldable pub left_over : Fragment → Ivl → List Ivl
unfolding apart ov_start ov_end
left_over f u =
    if apart f u
    then u ∷ []
    else (if ltb u.start (ov_start f u)
        then record { start = u.start; end = ov_start f u } ∷ []
        else [])
      ++ (if ltb (ov_end f u) u.end then record { start = ov_end f u; end = u.end } ∷ [] else [])

-- planRead and canonicalView share their two loops; they differ in what they append to the output
-- for the overlap [ovStart, ovEnd) of a fragment, which is `emit` here.
module _ {A : Type 0} (emit : Fragment → ℕ → ℕ → A) where
  unfoldable pub emitted : Fragment → Ivl → List A
  unfolding apart ov_start ov_end
  emitted f u = if apart f u then [] else emit f (ov_start f u) (ov_end f u) ∷ []

  -- for _, u := range uncovered
  unfoldable pub subtract : Fragment → List Ivl → List A → List Ivl → List A × List Ivl
  subtract f [] out next = (out, next)
  subtract f (u ∷ us) out next = subtract f us (out ++ emitted f u) (next ++ left_over f u)

  -- for _, f := range sorted, which stops when nothing is uncovered
  unfoldable pub cover : List Fragment → List Ivl → List A → List A × List Ivl
  cover [] uncovered out = (out, uncovered)
  cover (f ∷ fs) [] out = (out, [])
  cover (f ∷ fs) (u ∷ us) out = let (out', next) = subtract f (u ∷ us) out [] in cover fs next out'

abbrev pub read_slice : Fragment → ℕ → ℕ → ReadSlice
read_slice f s e = record {
  logical_off = s;
  length = e - s;
  sparse = false;
  locator = record {
    tier = f.tier;
    segment_id = f.segment_id;
    offset = f.segment_offset + (s - f.logical_off);
    length = e - s;
  };
}

abbrev pub sparse_slice : Ivl → ReadSlice
sparse_slice u = record {
  logical_off = u.start;
  length = u.end - u.start;
  sparse = true;
  locator = record { tier = 0; segment_id = 0; offset = 0; length = 0 };
}

abbrev pub slice_before : ReadSlice → ReadSlice → Bool
slice_before s t = ltb s.logical_off t.logical_off

unfoldable pub plan_read : List Fragment → ℕ → ℕ → List ReadSlice
plan_read frags read_off read_len =
    if read_len == 0
    then []
    else let (slices, uncovered) =
        cover read_slice (sort_by newer frags)
          (record { start = read_off; end = read_off + read_len } ∷ []) [] in
      sort_by slice_before (slices ++ map sparse_slice uncovered)

abbrev pub clipped : Fragment → ℕ → ℕ → Fragment
clipped f s e = record f {
  logical_off = s;
  length = e - s;
  segment_offset = f.segment_offset + (s - f.logical_off);
}

abbrev pub fragment_before : Fragment → Fragment → Bool
fragment_before f g = ltb f.logical_off g.logical_off

unfoldable pub min_off : ℕ → List Fragment → ℕ
min_off m [] = m
min_off m (f ∷ fs) = min_off (if ltb f.logical_off m then f.logical_off else m) fs

unfoldable pub max_end : ℕ → List Fragment → ℕ
max_end m [] = m
max_end m (f ∷ fs) = max_end (if ltb m (frag_end f) then frag_end f else m) fs

-- The view of the fragments in descending seq order.
unfoldable pub canonical_sorted : List Fragment → List Fragment
canonical_sorted [] = []
canonical_sorted (f ∷ fs) =
    let (out, uncovered) =
      cover clipped (f ∷ fs)
        (record { start = min_off f.logical_off fs; end = max_end (frag_end f) fs } ∷ []) [] in
    sort_by fragment_before out

unfoldable pub canonical_view : List Fragment → List Fragment
canonical_view frags = canonical_sorted (sort_by newer frags)
