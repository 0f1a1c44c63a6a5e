-- ===== src/Fragment/Codec.antt =====
-- A fragment survives its encoding.
use place.Common.{
  ℕ, ◌*◌, ◌/◌, ◌%◌, ◌^◌, ◌<◌, ◌≡◌, refl, ap, ◌∙◌, List, [], ◌∷◌, ◌++◌, arith, All, length,
  length-append, drop,
}
use mathlib.Core.Path.{ap₂}
use place.Common.Bytes.{put_le, from_le, from_le-put_le}
use place.Fragment.{
  Fragment, encode_fragment_into, decode_fragment, encode_fragments, decode_loop, decode_fragments,
  fragment_encoded_size,
}

-- The ranges of the code's types: uint64 seq, int64 offsets and length that are not negative, a
-- one-byte tier and a uint32 segment id.
pub record InRange (f : Fragment) : Type 0 where
  pub seq_fits : f.seq < 2 ^ 64
  pub logical_off_fits : f.logical_off < 2 ^ 63
  pub length_fits : f.length < 2 ^ 63
  pub tier_fits : f.tier < 256
  pub segment_id_fits : f.segment_id < 2 ^ 32
  pub segment_offset_fits : f.segment_offset < 2 ^ 63

decode-encode :
    (f : Fragment) (rest : List ℕ)
    → InRange f
    → decode_fragment (encode_fragment_into f ++ rest) ≡ f
unfolding decode_fragment encode_fragment_into put_le
decode-encode f rest r = λ i. record {
  seq = from_le-put_le 8 f.seq r.seq_fits i;
  logical_off = from_le-put_le 8 f.logical_off (omega arith) i;
  length = from_le-put_le 8 f.length (omega arith) i;
  tier = tier_byte i;
  segment_id = from_le-put_le 4 f.segment_id r.segment_id_fits i;
  segment_offset = from_le-put_le 8 f.segment_offset (omega arith) i;
}
  where
    tier_byte : from_le ((f.tier % 256) ∷ []) ≡ f.tier
    tier_byte = omega (arith, r.tier_fits)

length-encode : (f : Fragment) → length (encode_fragment_into f) ≡ 40
unfolding encode_fragment_into put_le
length-encode f = refl

length-encode_fragments : (fs : List Fragment) → length (encode_fragments fs) ≡ 40 * length fs
unfolding encode_fragments
length-encode_fragments [] = omega arith
length-encode_fragments (f ∷ fs) = omega (
  arith,
  length-append (encode_fragment_into f) (encode_fragments fs),
  length-encode f,
  length-encode_fragments fs,
)

drop-encode :
    (f : Fragment) (rest : List ℕ)
    → drop fragment_encoded_size (encode_fragment_into f ++ rest) ≡ rest
unfolding encode_fragment_into put_le
drop-encode f rest = refl

decode_loop-encode :
    (fs : List Fragment) → All InRange fs → decode_loop (length fs) (encode_fragments fs) ≡ fs
unfolding decode_loop encode_fragments
decode_loop-encode [] h = refl
decode_loop-encode (f ∷ fs) h =
    ap₂ ◌∷◌ (decode-encode f (encode_fragments fs) h.0) (
      ap (decode_loop (length fs)) (drop-encode f (encode_fragments fs))
      ∙ decode_loop-encode fs h.1)

-- Decoding what was encoded gives back the fragments, in order, where every field is in range.
pub decode_fragments-encode_fragments :
    (fs : List Fragment) → All InRange fs → decode_fragments (encode_fragments fs) ≡ fs
unfolding decode_fragments
decode_fragments-encode_fragments fs h =
    let rounds : length (encode_fragments fs) / 40 ≡ length fs =
      omega (arith, length-encode_fragments fs) in
    rw rounds (decode_loop-encode fs h)
