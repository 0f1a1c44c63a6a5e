-- ===== src/Buffers.antt =====
-- store/coalescer.go over all inodes: Write, LiveAttrs, truncation, flushing and Drop. `held` is what
-- the code has acquired from the global semaphore less what it has released, and `seq_gen` is the
-- index's counter. When a flush runs, and which worker runs it, is left open: begin_flush and
-- settle_flush may come at any time.
pub mod Clip
pub mod Account
pub mod Steps
mod Examples
use place.Common.{
  ℕ, ◌+◌, ◌-◌, Bool, true, false, List, [], ◌∷◌, Option, none, some, ltb, leb, ◌==◌, if◌then◌else◌,
  length, take,
}
use place.Common.Int.{ℤ, pos, ◌+ℤ◌, ◌-ℤ◌}
use place.Coalescer.{
  Error, Result, ok, err, BufExtent, BufBatch, InodeBuf, new_buf_batch, new_inode_buf, max_of,
  buffer_write,
}

pub record Coalescer : Type 0 where
  pub stripe_size : ℕ
  pub seq_gen : ℕ
  pub held : ℤ
  pub closing : Bool
  pub buffers : List (ℕ × InodeBuf)

-- c.buffers[inode]
unfoldable pub get_buf : List (ℕ × InodeBuf) → ℕ → Option InodeBuf
get_buf [] inode = none
get_buf ((i, b) ∷ l) inode = if i == inode then some b else get_buf l inode

unfoldable pub set_buf : List (ℕ × InodeBuf) → ℕ → InodeBuf → List (ℕ × InodeBuf)
set_buf [] inode b = (inode, b) ∷ []
set_buf ((i, a) ∷ l) inode b = if i == inode then (i, b) ∷ l else (i, a) ∷ set_buf l inode b

unfoldable pub delete_buf : List (ℕ × InodeBuf) → ℕ → List (ℕ × InodeBuf)
delete_buf [] inode = []
delete_buf ((i, a) ∷ l) inode = if i == inode then l else (i, a) ∷ delete_buf l inode

abbrev pub buf_or_new : Option InodeBuf → ℕ → InodeBuf
buf_or_new none tier = new_inode_buf tier
buf_or_new (some b) tier = b

-- Write, once the semaphore lets it through; the inode's buffer keeps the tier it was made with. An
-- Acquire that its context ends has no effect but the error, and is left out.
-- `none` is too little fuel in the loop, which is no outcome of the code.
unfoldable pub write : Coalescer → ℕ → ℕ → List ℕ → ℕ → ℕ → Option (Coalescer × Result (Unit {0}))
write c inode off [] tier now = some (c, if c.closing then err Error.closing else ok tt)
write c inode off (x ∷ xs) tier now =
    let buf = buf_or_new (get_buf c.buffers inode) tier in
    if c.closing
    then some (c, err Error.closing)
    else elim (buffer_write c.stripe_size c.seq_gen now buf off (x ∷ xs)) [
      | none ↦ none
      | some (err e) ↦ some (record c { buffers = set_buf c.buffers inode buf }, err e)
      | some (ok (buf', gen)) ↦ some (
        record c {
          seq_gen = gen;
          held = c.held +ℤ pos (length (x ∷ xs));
          buffers = set_buf c.buffers inode buf';
        },
        ok tt,
      )
    ]

unfoldable pub live_attrs : Coalescer → ℕ → Option (ℕ × ℕ)
unfolding get_buf
live_attrs c inode = elim (get_buf c.buffers inode) [
  | none ↦ none
  | some b ↦ some (b.live_size, b.live_mtime)
]

-- The extents that clip keeps of one batch, those past `size` dropped and the one across it cut.
unfoldable pub clip_extents : ℕ → List BufExtent → List BufExtent
clip_extents size [] = []
clip_extents size (ext ∷ exts) =
    let rest = clip_extents size exts in
    if leb size ext.off
    then rest
    else if ltb size (ext.off + length ext.bytes)
    then record ext { bytes = take (size - ext.off) ext.bytes } ∷ rest
    else ext ∷ rest

-- What clip adds to `freed` for one batch.
unfoldable pub clip_freed : ℕ → List BufExtent → ℕ
clip_freed size [] = 0
clip_freed size (ext ∷ exts) =
    (if leb size ext.off
      then length ext.bytes
      else if ltb size (ext.off + length ext.bytes)
      then length ext.bytes - (size - ext.off)
      else 0)
    + clip_freed size exts

-- newMax, the furthest end among the extents that stay.
unfoldable pub clip_max : ℕ → ℕ → List BufExtent → ℕ
clip_max size m [] = m
clip_max size m (ext ∷ exts) =
    clip_max size
      (if leb size ext.off
        then m
        else if ltb size (ext.off + length ext.bytes)
        then max_of m (ext.off + (size - ext.off))
        else max_of m (ext.off + length ext.bytes))
      exts

-- clip(batch): `freed` is shared by the two calls, and all of it comes off batch.bytes.
unfoldable pub clip : ℕ → Option BufBatch → ℕ → Option BufBatch × ℕ
unfolding clip_extents clip_freed clip_max
clip size none freed = (none, freed)
clip size (some b) freed =
    let freed' = freed + clip_freed size b.extents in
    let new_max = clip_max size 0 b.extents in
    (
      some (record b {
        extents = clip_extents size b.extents;
        bytes = b.bytes -ℤ pos freed';
        max_end = if ltb new_max b.max_end then new_max else b.max_end;
      }),
      freed',
    )

-- InvalidatePastSize under buf.mu: the buffer and what is released.
unfoldable pub invalidate_buf : InodeBuf → ℕ → InodeBuf × ℕ
invalidate_buf buf size =
    let (current, freed) = clip size buf.current 0 in
    let (flushing, freed') = clip size buf.flushing freed in
    (
      record buf {
        current = current;
        flushing = flushing;
        live_size = if ltb size buf.live_size then size else buf.live_size;
      },
      freed',
    )

unfoldable pub invalidate_past_size : Coalescer → ℕ → ℕ → Coalescer
invalidate_past_size c inode size = elim (get_buf c.buffers inode) [
  | none ↦ c
  | some buf ↦
      let (buf', freed) = invalidate_buf buf size in
      record c { held = c.held -ℤ pos freed; buffers = set_buf c.buffers inode buf' }
]

abbrev pub is_positive : ℤ → Bool
is_positive (ℤ.pos n) = ltb 0 n
is_positive (ℤ.negsuc n) = false

abbrev pub is_zero : ℤ → Bool
is_zero (ℤ.pos n) = n == 0
is_zero (ℤ.negsuc n) = false

-- flushInode's swap: the batch to flush, if there is one and no flush is running.
unfoldable pub swap_buf : InodeBuf → Option (BufBatch × InodeBuf)
swap_buf buf = elim buf.flushing [
  | some f ↦ none
  | none ↦ elim buf.current [
    | none ↦ none
    | some b ↦
        if is_zero b.bytes
        then none
        else some (b, record buf { flushing = some b; current = some new_buf_batch })
  ]
]

-- Settling the batch once AppendBatchCtx returned; `end` and `mtime` are those read after the swap.
unfoldable pub settle_buf : InodeBuf → ℕ → ℕ → Option Error → InodeBuf
settle_buf buf end mtime (some e) = record buf { flushing = none; poisoned = some e }
settle_buf buf end mtime none = record buf {
  flushing = none;
  on_disk_size = max_of buf.on_disk_size end;
  on_disk_mtime = max_of buf.on_disk_mtime mtime;
}

abbrev pub bytes_of : Option BufBatch → ℤ
bytes_of none = pos 0
bytes_of (some b) = b.bytes

-- The two locked parts of flushInode over the whole state. What is released is what the batch counts
-- when it is settled.
unfoldable pub begin_flush : Coalescer → ℕ → Coalescer
unfolding swap_buf
begin_flush c inode = elim (get_buf c.buffers inode) [
  | none ↦ c
  | some buf ↦ elim (swap_buf buf) [
    | none ↦ c
    | some (b, buf') ↦ record c { buffers = set_buf c.buffers inode buf' }
  ]
]

unfoldable pub settle_flush : Coalescer → ℕ → ℕ → ℕ → Option Error → Coalescer
unfolding settle_buf
settle_flush c inode end mtime outcome = elim (get_buf c.buffers inode) [
  | none ↦ c
  | some buf ↦ record c {
    held = c.held -ℤ bytes_of buf.flushing;
    buffers = set_buf c.buffers inode (settle_buf buf end mtime outcome);
  }
]

-- Drop, once no flush of the inode is running.
unfoldable pub drop_buf : Coalescer → ℕ → Coalescer
drop_buf c inode = elim (get_buf c.buffers inode) [
  | none ↦ c
  | some buf ↦ record c {
    held = if is_positive (bytes_of buf.current) then c.held -ℤ bytes_of buf.current else c.held;
    buffers = delete_buf c.buffers inode;
  }
]
