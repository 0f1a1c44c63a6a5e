-- ===== src/Store/Flush.antt =====
-- store/handle.go, the write path through the buffer, and store/coalescer.go, flushInode from the swap
-- of the batch to its settling: the batch's extents go to the index with an update of the node.
use place.Common.{ℕ, List, [], ◌∷◌, Option, none, some, length}
use place.Coalescer.{BufExtent, BufBatch, flush_failed}
use place.Coalescer as WriteBuffer
use place.Buffers.{Coalescer, get_buf, swap_buf, begin_flush, settle_flush}
use place.Buffers
use place.Errors.{Result, ok, err}
use place.Kv.{Pebble}
use place.Index.{Index}
use place.Index.Append.{AppendExtent, Disk, append_batch_ctx}
use place.Store.{Store}
use place.Store.Write.{node_update}

-- ae: the extents of a batch, all under the tier of the buffer.
unfoldable pub append_extents : ℕ → List BufExtent → List AppendExtent
append_extents tier [] = []
append_extents tier (ext ∷ exts) =
    record { seq = ext.seq; off = ext.off; bytes = ext.bytes; tier = tier }
    ∷ append_extents tier exts

abbrev pub outcome : Result (Unit {0}) → Option WriteBuffer.Error
outcome (err e) = some (flush_failed e)
outcome (ok u) = none

abbrev pub count : ℕ → WriteBuffer.Result (Unit {0}) → WriteBuffer.Result ℕ
count n (WriteBuffer.ok u) = WriteBuffer.ok n
count n (WriteBuffer.err e) = WriteBuffer.err e

module _ {p : Pebble} where
  -- The index gives the buffer its sequence numbers.
  abbrev pub numbered : Store p → Coalescer
  numbered s = record s.coalescer { seq_gen = s.index.seq_gen }

  abbrev pub buffered : Store p → Coalescer → Store p
  buffered s c = record s { index = record s.index { seq_gen = c.seq_gen }; coalescer = c }

  -- WriteAtTierCtx of a store with a buffer; `none` is the panic on an offset that no stripe holds.
  unfoldable pub write_at_tier_ctx :
      Store p → ℕ → List ℕ → ℕ → ℕ → ℕ → Option (Store p × WriteBuffer.Result ℕ)
  write_at_tier_ctx s inode [] off tier now = some (s, WriteBuffer.ok 0)
  write_at_tier_ctx s inode (x ∷ xs) off tier now =
      elim (Buffers.write (numbered s) inode off (x ∷ xs) tier now) [
        | none ↦ none
        | some (c, r) ↦ some (buffered s c, count (length (x ∷ xs)) r)
      ]

  -- AppendBatchCtx for a batch, with its hook.
  unfoldable pub append_flush : Disk → Index p → ℕ → ℕ → BufBatch → Index p × Result (Unit {0})
  append_flush disk idx inode tier b =
      append_batch_ctx disk idx inode (append_extents tier b.extents)
        (some (node_update p inode b.max_end b.mtime))

  -- A flush with nothing else between its swap and its settling.
  unfoldable pub flush_inode : Disk → Store p → ℕ → Store p
  flush_inode disk s inode = elim (get_buf s.coalescer.buffers inode) [
    | none ↦ s
    | some buf ↦ elim (swap_buf buf) [
      | none ↦ s
      | some (b, buf') ↦
          let (idx, r) = append_flush disk s.index inode buf.tier b in
          record s {
            index = idx;
            coalescer =
                settle_flush (begin_flush s.coalescer inode) inode b.max_end b.mtime (outcome r);
          }
    ]
  ]
