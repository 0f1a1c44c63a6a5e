-- ===== src/Store/Flushed.antt =====
-- What a flush of the buffer leaves in the index and in the database.
use place.Common.{
  ℕ, ◌^◌, ◌<◌, ◌≡◌, refl, sym, ap, ◌∙◌, false, List, [], ◌∷◌, Option, none, some, arith, All,
  length, inl, inr, ◌⊎◌,
}
use place.Coalescer.{BufExtent, BufBatch, InodeBuf, new_buf_batch, flush_failed, max_of}
use place.Coalescer as WriteBuffer
use place.Buffers.{
  Coalescer, get_buf, set_buf, swap_buf, begin_flush, settle_flush, settle_buf, is_zero,
}
use place.Errors.{Error, Result, ok, err, Result-cases}
use place.Kv.{Pebble}
use place.Kv.Entries.{entry}
use place.Kv.Laws.{Laws}
use place.Index.{Index}
use place.Index.Append.{AppendExtent, Disk, append_batch_ctx}
use place.Index.Staging.{Ready}
use place.Index.Appended.{Found, key_of, Distinct}
use place.Index.Aborted.{append_batch_ctx-failed}
use place.Store.{Store}
use place.Store.Write.{node_update}
use place.Store.Written.{NodeWritten, append_batch_ctx-NodeWritten, append_batch_ctx-Kept}
use place.Store.Flush.{append_extents, append_flush, flush_inode, outcome}

abbrev swapped : InodeBuf → BufBatch → InodeBuf
swapped buf b = record buf { flushing = some b; current = some new_buf_batch }

swap_buf_lem :
    (buf : InodeBuf) (b : BufBatch)
    → buf.current ≡ some b
    → buf.flushing ≡ none
    → is_zero b.bytes ≡ false
    → swap_buf buf ≡ some (b, swapped buf b)
unfolding swap_buf
swap_buf_lem buf b filled quiet counted = ground arith

get_buf-set_buf :
    (l : List (ℕ × InodeBuf)) (inode : ℕ) (buf : InodeBuf)
    → get_buf (set_buf l inode buf) inode ≡ some buf
unfolding get_buf set_buf
get_buf-set_buf [] inode buf = ground arith
get_buf-set_buf ((i, a) ∷ l) inode buf = ground (arith, get_buf-set_buf l inode buf)

begin_flush_lem :
    (c : Coalescer) (inode : ℕ) (buf : InodeBuf) (b : BufBatch)
    → get_buf c.buffers inode ≡ some buf
    → swap_buf buf ≡ some (b, swapped buf b)
    → begin_flush c inode ≡ record c { buffers = set_buf c.buffers inode (swapped buf b) }
unfolding begin_flush
begin_flush_lem c inode buf b found swaps = rw (found, swaps, begin_flush) refl

settle_flush_lem :
    (c : Coalescer) (inode end mtime : ℕ) (o : Option WriteBuffer.Error) (buf : InodeBuf)
    → get_buf c.buffers inode ≡ some buf
    → get_buf (settle_flush c inode end mtime o).buffers inode ≡ some (settle_buf buf end mtime o)
unfolding settle_flush
settle_flush_lem c inode end mtime o buf found =
    rw (found, settle_flush) (get_buf-set_buf c.buffers inode (settle_buf buf end mtime o))

-- A flush failed: the database is as it was, and the buffer holds the error.
abbrev pub Failed : {p : Pebble} → Laws p → Store p → Store p → ℕ → InodeBuf → Type 0
Failed laws s s' inode buf =
    (x : Error) × (laws.entries s'.index.db ≡ laws.entries s.index.db)
    × (get_buf s'.coalescer.buffers inode
        ≡ some (record buf {
          flushing = none;
          current = some new_buf_batch;
          poisoned = some (flush_failed x);
        }))

-- A flush succeeded: the extents can be read back, and the node is the batch's.
abbrev pub Durable :
    {p : Pebble} → Laws p → Store p → Store p → ℕ → InodeBuf → BufBatch → List AppendExtent → Type 0
Durable laws s s' inode buf b es =
    All (λ d. Found inode s'.index d (entry (laws.entries s'.index.db) (key_of inode s'.index d)))
      es
    × NodeWritten laws inode b.max_end b.mtime s.index.db s'.index.db
    × (get_buf s'.coalescer.buffers inode
        ≡ some (record buf {
          flushing = none;
          current = some new_buf_batch;
          on_disk_size = max_of buf.on_disk_size b.max_end;
          on_disk_mtime = max_of buf.on_disk_mtime b.mtime;
        }))

module _ {p : Pebble} (disk : Disk) (s : Store p) (inode : ℕ) (buf : InodeBuf) (b : BufBatch)
    (found : get_buf s.coalescer.buffers inode ≡ some buf) (filled : buf.current ≡ some b)
    (quiet : buf.flushing ≡ none) (counted : is_zero b.bytes ≡ false) where
  abbrev appended : Index p × Result (Unit {0})
  appended = append_flush disk s.index inode buf.tier b

  flush_inode_lem : flush_inode disk s inode ≡ record s {
    index = appended.0;
    coalescer =
        settle_flush (begin_flush s.coalescer inode) inode b.max_end b.mtime (outcome appended.1);
  }
  unfolding flush_inode
  flush_inode_lem = rw (found, swap_buf_lem buf b filled quiet counted, flush_inode) refl

  settled :
      get_buf (flush_inode disk s inode).coalescer.buffers inode
      ≡ some (settle_buf (swapped buf b) b.max_end b.mtime (outcome appended.1))
  settled =
      rw
        (
          flush_inode_lem,
          begin_flush_lem s.coalescer inode buf b found (swap_buf_lem buf b filled quiet counted),
        )
        (settle_flush_lem _ inode b.max_end b.mtime (outcome appended.1) (swapped buf b)
          (get_buf-set_buf s.coalescer.buffers inode (swapped buf b)))

  -- A flush of a batch with an extent or more, the AppendExtents of which are `e ∷ es`.
  module _ (laws : Laws p) (e : AppendExtent) (es : List AppendExtent)
      (extents : append_extents buf.tier b.extents ≡ e ∷ es) (fits : inode < 2 ^ 64)
      (ready : Ready (length (e ∷ es)) s.index)
      (small : All (λ d. length d.bytes < 2 ^ 32) (e ∷ es)) (distinct : Distinct (e ∷ es)) where
    abbrev flushed : Store p
    flushed = flush_inode disk s inode

    as_append :
        appended
        ≡ append_batch_ctx disk s.index inode
            (e ∷ es)
            (some (node_update p inode b.max_end b.mtime))
    unfolding append_flush
    as_append =
        ap
          (λ l.
            append_batch_ctx disk s.index inode l (some (node_update p inode b.max_end b.mtime)))
          extents

    went_to :
        (r : Result (Unit {0}))
        → appended.1 ≡ r
        → append_batch_ctx disk s.index inode
            (e ∷ es)
            (some (node_update p inode b.max_end b.mtime))
          ≡ (flushed.index, r)
    went_to r went =
        sym as_append ∙ (λ i. (sym (ap (λ (z : Store p). z.index) flush_inode_lem) i, went i))

    -- A flush of a batch that counts bytes poisons the buffer with an error and leaves the database as
    -- it was, or makes the batch
    -- durable: a read at the fragment of each extent gives the extent's bytes, the node has the size
    -- and the times of the batch, every other node and entry is as it was, and the buffer is not
    -- poisoned by it. In both cases nothing is flushing after it, and an empty batch is current. No
    -- flush of the inode is running, the inode is a uint64, every open segment's count is its file's
    -- length, the segment ids do not run out, the sequence numbers differ, and an extent is shorter
    -- than 2^32 bytes.
    pub flush_inode-Durable :
        Failed laws s (flush_inode disk s inode) inode buf
        ⊎ Durable laws s (flush_inode disk s inode) inode buf b (e ∷ es)
    unfolding settle_buf
    flush_inode-Durable = elim (Result-cases appended.1) [
      | inr (x, failed) ↦ inl (
        x,
        append_batch_ctx-failed laws disk s.index flushed.index inode e es
            (some (node_update p inode b.max_end b.mtime)) x (went_to (err x) failed),
        settled ∙ ap (λ r. some (settle_buf (swapped buf b) b.max_end b.mtime (outcome r))) failed,
      )
      | inl (u, went) ↦ inr (
        append_batch_ctx-Kept laws s.index flushed.index inode b.max_end b.mtime e es disk fits
            ready small (went_to (ok tt) went) distinct,
        append_batch_ctx-NodeWritten laws s.index flushed.index inode b.max_end b.mtime e es disk
            fits ready small (went_to (ok tt) went),
        settled ∙ ap (λ r. some (settle_buf (swapped buf b) b.max_end b.mtime (outcome r))) went,
      )
    ]
