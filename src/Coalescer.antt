-- ===== src/Coalescer.antt =====
-- store/coalescer.go: the write-back buffer of each inode. What stands between a lock and its
-- unlock is one function here. This file has one inode's buffer: what Write adds to it and what
-- readers find in it.
pub mod Split
mod Examples
use place.Common.{
  ℕ, zero, suc, ◌+◌, ◌-◌, ◌*◌, ◌/◌, ◌%◌, ◌^◌, ◌<◌, Bool, true, false, List, [], ◌∷◌, ◌++◌, Option,
  none, some, ltb, leb, ◌==◌, if◌then◌else◌, ◌||◌, length, take, drop,
}
use place.Common.Int.{ℤ, pos, ◌+ℤ◌, ◌-ℤ◌}
use place.Errors
use place.Fragment.{Fragment, Locator, tier_mem}

pub data Error : Type 0 where
  closing no_buffer extent_gone out_of_bounds cancelled : Error
  flush_failed store_failed : Errors.Error → Error

pub data Result {ℓ} (A : Type ℓ) : Type ℓ where
  ok : A → Result A
  err : Error → Result A

pub record BufExtent : Type 0 where
  pub seq : ℕ
  pub off : ℕ
  pub bytes : List ℕ

pub record BufBatch : Type 0 where
  pub extents : List BufExtent
  pub bytes : ℤ
  pub max_end : ℕ
  pub mtime : ℕ

pub record InodeBuf : Type 0 where
  pub tier : ℕ
  pub current : Option BufBatch
  pub flushing : Option BufBatch
  pub on_disk_size : ℕ
  pub on_disk_mtime : ℕ
  pub live_size : ℕ
  pub live_mtime : ℕ
  pub poisoned : Option Error

abbrev pub new_buf_batch : BufBatch
new_buf_batch = record { extents = []; bytes = pos 0; max_end = 0; mtime = 0 }

abbrev pub new_inode_buf : ℕ → InodeBuf
new_inode_buf tier = record {
  tier = tier;
  current = none;
  flushing = none;
  on_disk_size = 0;
  on_disk_mtime = 0;
  live_size = 0;
  live_mtime = 0;
  poisoned = none;
}

-- idx.NextSeq(): the counter after an atomic add of 1.
abbrev pub next_seq : ℕ → ℕ
next_seq g = (g + 1) % 2 ^ 64

abbrev pub max_of : ℕ → ℕ → ℕ
max_of m e = if ltb m e then e else m

-- How much of `rem` fits the stripe that `cur_off` lies in.
unfoldable pub take_len : ℕ → ℕ → ℕ → ℕ
take_len stripe_size cur_off rem =
    let stripe_end = (cur_off / stripe_size + 1) * stripe_size in
    if ltb stripe_end (cur_off + rem) then stripe_end - cur_off else rem

unfoldable pub push_extent : BufBatch → ℕ → ℕ → List ℕ → BufBatch
push_extent b seq off chunk = record b {
  extents = b.extents ++ record { seq = seq; off = off; bytes = chunk } ∷ [];
  bytes = b.bytes +ℤ pos (length chunk);
  max_end = max_of b.max_end (off + length chunk);
}

-- The loop of Write; `none` is too little fuel, and is no outcome of the code.
unfoldable pub write_loop : ℕ → ℕ → ℕ → BufBatch → ℕ → List ℕ → Option (BufBatch × ℕ)
write_loop fuel stripe_size gen b cur_off [] = some (b, gen)
write_loop zero stripe_size gen b cur_off (x ∷ rem) = none
write_loop (suc fuel) stripe_size gen b cur_off (x ∷ rem) =
    let n = take_len stripe_size cur_off (length (x ∷ rem)) in
    let chunk = take n (x ∷ rem) in
    write_loop fuel stripe_size (next_seq gen) (push_extent b (next_seq gen) cur_off chunk)
      (cur_off + n) (drop n (x ∷ rem))

abbrev pub or_new : Option BufBatch → BufBatch
or_new none = new_buf_batch
or_new (some b) = b

-- Write under buf.mu, after the semaphore was acquired: the buffer and the counter.
unfoldable pub buffer_write : ℕ → ℕ → ℕ → InodeBuf → ℕ → List ℕ → Option (Result (InodeBuf × ℕ))
buffer_write stripe_size gen now buf off written = elim buf.poisoned [
  | some e ↦ some (err e)
  | none ↦ elim (write_loop (length written) stripe_size gen (or_new buf.current) off written) [
    | none ↦ none
    | some (b, gen') ↦ some (
        ok (
          record buf {
            current = some (record b { mtime = now });
            live_size = max_of buf.live_size (off + length written);
            live_mtime = now;
          },
          gen',
        ))
  ]
]

-- FragmentsFor over one batch: the extents that reach into [range_start, range_end).
unfoldable pub collect : ℕ → ℕ → List BufExtent → List Fragment
collect range_start range_end [] = []
collect range_start range_end (ext ∷ exts) =
    let rest = collect range_start range_end exts in
    if leb (ext.off + length ext.bytes) range_start || leb range_end ext.off
    then rest
    else record {
      seq = ext.seq;
      logical_off = ext.off;
      length = length ext.bytes;
      tier = tier_mem;
      segment_id = 0;
      segment_offset = ext.seq;
    }
      ∷ rest

abbrev pub extents_of : Option BufBatch → List BufExtent
extents_of none = []
extents_of (some b) = b.extents

unfoldable pub fragments_for : InodeBuf → ℕ → ℕ → List Fragment
unfolding collect
fragments_for buf off len =
    if len == 0
    then []
    else collect off (off + len) (extents_of buf.current)
      ++ collect off (off + len) (extents_of buf.flushing)

unfoldable pub find_extent : ℕ → List BufExtent → Option BufExtent
find_extent want [] = none
find_extent want (ext ∷ exts) = if ext.seq == want then some ext else find_extent want exts

-- The bytes of the extent from `base` on, as many as the locator says; the destination is as long.
unfoldable pub copy_extent : BufExtent → Locator → ℕ → Result (List ℕ)
copy_extent ext loc base =
    if ltb base ext.off
    then err out_of_bounds
    else if ltb (length ext.bytes) (base - ext.off + loc.length)
    then err out_of_bounds
    else ok (take loc.length (drop (base - ext.off) ext.bytes))

unfoldable pub copy_out : InodeBuf → Locator → ℕ → Result (List ℕ)
unfolding find_extent
copy_out buf loc base = elim (find_extent loc.offset (extents_of buf.current)) [
  | some ext ↦ copy_extent ext loc base
  | none ↦ elim (find_extent loc.offset (extents_of buf.flushing)) [
    | some ext ↦ copy_extent ext loc base
    | none ↦ err extent_gone
  ]
]
