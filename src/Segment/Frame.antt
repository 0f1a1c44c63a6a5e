-- ===== src/Segment/Frame.antt =====
-- What a frame holds: the tests of Scan on it, its header, its length and its payload.
use place.Common.{
  ℕ, ◌+◌, ◌^◌, ◌<◌, ◌≡◌, refl, sym, ap, ◌∙◌, true, List, ◌++◌, arith, ==_self, length,
  length-append, take, drop, take-append, drop-append,
}
use place.Common.Bytes.{put_le, le_at, from_le, from_le-put_le, length-put_le}
use place.Segment.{
  RecordHeader, body, frame, framed_size, header_size, has_magic, has_version, header_at,
  crc_matches, checksum_ieee,
}
use mathlib.Core.List.{append_assoc}

-- The ranges of the header's Go types; a file's offset is not negative.
pub record Fits (h : RecordHeader) : Type 0 where
  pub inode_fits : h.inode < 2 ^ 64
  pub stripe_id_fits : h.stripe_id < 2 ^ 32
  pub seq_fits : h.seq < 2 ^ 64
  pub logical_off_fits : h.logical_off < 2 ^ 63
  pub length_fits : h.length < 2 ^ 32

length-body : (h : RecordHeader) (p : List ℕ) → length (body h p) ≡ 36 + length p
unfolding body put_le
length-body h p = omega arith

pub length-frame : (h : RecordHeader) (p : List ℕ) → length (frame h p) ≡ framed_size (length p)
unfolding frame
length-frame h p = omega (
  arith,
  length-append (put_le 4 0x45534C50) (body h p ++ put_le 4 (checksum_ieee (body h p))),
  length-append (body h p) (put_le 4 (checksum_ieee (body h p))),
  length-put_le 4 0x45534C50,
  length-put_le 4 (checksum_ieee (body h p)),
  length-body h p,
)

module _ (h : RecordHeader) (p more : List ℕ) where
  pub has_magic-frame : has_magic (frame h p ++ more) ≡ true
  unfolding has_magic frame put_le
  has_magic-frame = refl

  pub has_version-frame : has_version (frame h p ++ more) ≡ true
  unfolding has_version frame put_le body
  has_version-frame = refl

  pub header_at-frame : Fits h → header_at (frame h p ++ more) ≡ h
  unfolding header_at frame put_le body
  header_at-frame r = λ i. record {
    inode = from_le-put_le 8 h.inode r.inode_fits i;
    stripe_id = from_le-put_le 4 h.stripe_id r.stripe_id_fits i;
    seq = from_le-put_le 8 h.seq r.seq_fits i;
    logical_off = from_le-put_le 8 h.logical_off (omega arith) i;
    length = from_le-put_le 4 h.length r.length_fits i;
  }

  -- The frame as its magic, its body, its checksum and what follows.
  frame_parts :
      frame h p ++ more
      ≡ put_le 4 0x45534C50 ++ (body h p ++ (put_le 4 (checksum_ieee (body h p)) ++ more))
  unfolding frame
  frame_parts = simp append_assoc

  checksum_ieee-lt : checksum_ieee (body h p) < 2 ^ 32
  unfolding checksum_ieee
  checksum_ieee-lt = omega arith

  front : List ℕ
  front = put_le 4 0x45534C50 ++ body h p

  length-front : length front ≡ header_size + length p
  unfolding front
  length-front = omega (
    arith,
    length-append (put_le 4 0x45534C50) (body h p),
    length-put_le 4 0x45534C50,
    length-body h p,
  )

  behind_body :
      drop (header_size + length p) (frame h p ++ more)
      ≡ put_le 4 (checksum_ieee (body h p)) ++ more
  unfolding front
  behind_body =
      ap (drop (header_size + length p))
        (frame_parts ∙ sym (append_assoc (put_le 4 0x45534C50) (body h p) _))
      ∙ rw (← length-front) (drop-append front _)

  stored_crc : le_at (frame h p ++ more) (header_size + length p) 4 ≡ checksum_ieee (body h p)
  unfolding le_at put_le
  stored_crc =
      ap (λ l. from_le (take 4 l)) behind_body
      ∙ from_le-put_le 4 (checksum_ieee (body h p)) checksum_ieee-lt

  covered : take (36 + length p) (drop 4 (frame h p ++ more)) ≡ body h p
  unfolding put_le
  covered =
      ap (λ l. take (36 + length p) (drop 4 l)) frame_parts
      ∙ rw (← length-body h p) (take-append (body h p) _)

  pub crc_matches-frame : crc_matches (frame h p ++ more) (length p) ≡ true
  unfolding crc_matches
  crc_matches-frame = rw (covered, stored_crc) (==_self _)

  pub drop-frame : drop (framed_size (length p)) (frame h p ++ more) ≡ more
  drop-frame = rw (← length-frame h p) (drop-append (frame h p) more)
