-- ===== src/Segment.antt =====
-- segment/segment.go, one segment file: the framed record, AppendCtx, ReadAt, Scan and truncate.
-- A file is its bytes; every write goes to its end, since openSegment and truncate seek there.
-- hash/crc32's ChecksumIEEE is written out bit by bit.
pub mod Frame
pub mod Scan
pub mod Append
mod Examples
use place.Common.{
  ℕ, zero, suc, ◌+◌, ◌-◌, ◌*◌, ◌/◌, ◌%◌, ◌^◌, Bool, true, false, List, [], ◌∷◌, ◌++◌, Option, none,
  some, ltb, ◌==◌, if◌then◌else◌, not, length, take, drop,
}
use place.Common.Bytes.{put_le, le_at}
use Prim.Native.Nat.{bit_xor}
use mathlib.Core.List.{foldl}

abbrev pub record_magic : ℕ
record_magic = 0x45534C50

abbrev pub record_version : ℕ
record_version = 1

abbrev pub header_size : ℕ
header_size = 40

abbrev pub trailer_size : ℕ
trailer_size = 4

abbrev pub framed_size : ℕ → ℕ
framed_size payload_len = header_size + payload_len + trailer_size

pub record RecordHeader : Type 0 where
  pub inode : ℕ
  pub stripe_id : ℕ
  pub seq : ℕ
  pub logical_off : ℕ
  pub length : ℕ

-- One bit of the reflected CRC-32, and one byte of it.
unfoldable pub crc_bit : ℕ → ℕ
crc_bit c = if c % 2 == 1 then bit_xor (c / 2) 0xEDB88320 else c / 2

unfoldable pub crc_bits : ℕ → ℕ → ℕ
unfolding crc_bit
crc_bits zero c = c
crc_bits (suc n) c = crc_bits n (crc_bit c)

unfoldable pub crc_byte : ℕ → ℕ → ℕ
unfolding crc_bits
crc_byte c b = crc_bits 8 (bit_xor c b)

-- crc32.ChecksumIEEE, a uint32.
unfoldable pub checksum_ieee : List ℕ → ℕ
unfolding crc_byte
checksum_ieee bytes = bit_xor (foldl crc_byte 0xFFFFFFFF bytes) 0xFFFFFFFF % 2 ^ 32

-- buf[4:o] of AppendCtx: version, flags, padding, the header's fields and the payload.
unfoldable pub body : RecordHeader → List ℕ → List ℕ
body h payload =
    record_version ∷ 0 ∷ put_le 2 0
    ++ (put_le 8 h.inode
        ++ (put_le 4 h.stripe_id
            ++ (put_le 8 h.seq ++ (put_le 8 h.logical_off ++ (put_le 4 h.length ++ payload)))))

unfoldable pub frame : RecordHeader → List ℕ → List ℕ
frame h payload =
    put_le 4 record_magic ++ (body h payload ++ put_le 4 (checksum_ieee (body h payload)))

-- `size` is the code's own count; the file may be longer after a failed write.
pub record Segment : Type 0 where
  pub id : ℕ
  pub bytes : List ℕ
  pub size : ℕ

pub data SegmentError : Type 0 where
  length_mismatch write_failed read_failed truncate_grow : SegmentError

pub data Result {ℓ} (A : Type ℓ) : Type ℓ where
  ok : A → Result A
  err : SegmentError → Result A

-- What the disk does with a write: all of it, or an error after `n` bytes.
pub data Write : Type 0 where
  whole : Write
  partial : ℕ → Write

unfoldable pub write_file : List ℕ → List ℕ → Write → List ℕ
write_file file buf whole = file ++ buf
write_file file buf (partial n) = file ++ take n buf

unfoldable pub append_written : Segment → List ℕ → Write → Segment × Result ℕ
unfolding write_file
append_written s buf whole = (
  record s { bytes = write_file s.bytes buf whole; size = s.size + length buf },
  ok (s.size + header_size),
)
append_written s buf (partial n) =
    (record s { bytes = write_file s.bytes buf (partial n) }, err SegmentError.write_failed)

-- The payload's offset, or an error; `size` moves only if all was written.
unfoldable pub append_ctx : Segment → RecordHeader → List ℕ → Write → Segment × Result ℕ
unfolding append_written
append_ctx s h payload w =
    if h.length == length payload
    then append_written s (frame h payload) w
    else (s, err SegmentError.length_mismatch)

-- os.File.ReadAt fails (io.EOF) when the file ends before `n` bytes are read.
unfoldable pub read_at : Segment → ℕ → ℕ → Result (List ℕ)
read_at s off n =
    if ltb (length s.bytes) (off + n)
    then err SegmentError.read_failed
    else ok (take n (drop off s.bytes))

-- A truncate whose system calls succeed.
unfoldable pub truncate : Segment → ℕ → Segment × Result (Unit {0})
truncate s size =
    if size == s.size
    then (s, ok tt)
    else if ltb s.size size
    then (s, err SegmentError.truncate_grow)
    else (record s { bytes = take size s.bytes; size = size }, ok tt)

unfoldable pub has_magic : List ℕ → Bool
unfolding le_at
has_magic rest = le_at rest 0 4 == record_magic

unfoldable pub has_version : List ℕ → Bool
unfolding le_at
has_version rest = le_at rest 4 1 == record_version

unfoldable pub header_at : List ℕ → RecordHeader
unfolding le_at
header_at rest = record {
  inode = le_at rest 8 8;
  stripe_id = le_at rest 16 4;
  seq = le_at rest 20 8;
  logical_off = le_at rest 28 8;
  length = le_at rest 36 4;
}

-- The checksum stored behind a payload of `n` bytes is that of version to payload.
unfoldable pub crc_matches : List ℕ → ℕ → Bool
unfolding le_at
crc_matches rest n = checksum_ieee (take (36 + n) (drop 4 rest)) == le_at rest (header_size + n) 4

-- The outcome of a scan: the visitor's state and the offset where the valid records end, the
-- visitor's error, or (no outcome of the code) too little fuel.
pub data Scanned (S : Type 0) : Type 0 where
  done : S → ℕ → Scanned S
  failed : Scanned S
  out_of_fuel : Scanned S

module _ {S : Type 0} (visit : RecordHeader → ℕ → S → Option S) where
  -- `rest` is data[pos:].
  unfoldable pub scan_loop : ℕ → ℕ → List ℕ → S → Scanned S
  scan_loop zero pos rest s = out_of_fuel
  scan_loop (suc fuel) pos rest s =
      let h = header_at rest in
      let next : Scanned S = elim (visit h (pos + header_size) s) [
        | none ↦ failed
        | some s' ↦
            scan_loop fuel (pos + framed_size h.length) (drop (framed_size h.length) rest) s'
      ] in
      if ltb (length rest) (header_size + trailer_size)
      then done s pos
      else if not (has_magic rest)
      then done s pos
      else if not (has_version rest)
      then done s pos
      else if ltb (length rest) (framed_size h.length)
      then done s pos
      else if not (crc_matches rest h.length)
      then done s pos
      else next

  -- Reading `size` bytes fails if the file is shorter. A record takes 44 bytes at least, so the fuel
  -- is enough.
  unfoldable pub scan : Segment → S → Scanned S
  scan seg s =
      if ltb (length seg.bytes) seg.size
      then failed
      else scan_loop (suc (length seg.bytes)) 0 (take seg.size seg.bytes) s
