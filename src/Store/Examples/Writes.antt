-- ===== src/Store/Examples/Writes.antt =====
-- A file that is written through the buffer and around it, and the theorems at it.
use place.Common.{ℕ, ◌≡◌, refl, false, [], ◌∷◌, Option, none, some, arith, ◌⊎◌, length}
use place.Common.Bytes.{put_le, put_be, from_le, le_at}
use place.Common.Lex.{bytes_lt}
use place.Common.Int.{pos}
use place.Errors.{Result, ok}
use place.Keys.{node_key}
use place.Node.{encode_node, decode_node}
use place.Segment.{whole, append_ctx, append_written, write_file}
use place.SegmentSet.{
  active_ctx, rotate, rotated, open_segment, get_segment, delete_segment, has_room, get,
}
use place.Kv
use place.Kv.{set, commit}
use place.Kv.Entries.{entry, bytes_eq, apply_ops, put_entry}
use place.Kv.Memory.{memory, memory_laws}
use place.Coalescer.{BufBatch, InodeBuf}
use place.Index.{stripe_of}
use place.Index.Append.{
  AppendExtent, Disk, append_batch_ctx, append_to_with_tx_ctx, stage, stage_extent, stripe_end,
  write_record, put_segment, fragment_batch, split_payload,
}
use place.Index.Staging.{Ready}
use place.Buffers.{get_buf}
use place.Store.{Store, decoded}
use place.Store.Write.{write_at_tier_sync, node_update, written_node}
use place.Store.Flush.{append_extents, flush_inode}
use place.Store.Direct.{Kept, write_at_tier_sync-Kept}
use place.Store.Flushed.{Failed, Durable, flush_inode-Durable}
use place.Store.Examples.{no_segments, file_node}

abbrev batch : BufBatch
batch = record {
  extents = record { seq = 4; off = 5; bytes = 7 ∷ 9 ∷ [] } ∷ [];
  bytes = pos 2;
  max_end = 7;
  mtime = 20;
}

abbrev buf : InodeBuf
buf = record {
  tier = 1;
  current = some batch;
  flushing = none;
  on_disk_size = 0;
  on_disk_mtime = 0;
  live_size = 7;
  live_mtime = 20;
  poisoned = none;
}

abbrev before : Store memory
before = record {
  index = record {
    stripe_size = 4096;
    db = record { list = (node_key 2, encode_node file_node) ∷ []; in_order = (tt, tt) };
    hot = no_segments 1;
    cold = no_segments 2;
    seq_gen = 4;
  };
  coalescer = record {
    stripe_size = 4096;
    seq_gen = 4;
    held = pos 2;
    closing = false;
    buffers = (2, buf) ∷ [];
  };
}

before-Ready : Ready 2 before.index
before-Ready = record {
  hot_sound = record { steps = tt; below = tt };
  cold_sound = record { steps = tt; below = tt };
  hot_room = omega arith;
  cold_room = omega arith;
}

abbrev disk : Disk
disk = record {
  rotations = λ i. record { sync_fails = false; open_fails = false; fsync_dir_fails = false };
  writes = λ i. whole;
  sync_fails = λ i. false;
}

abbrev extent : AppendExtent
extent = record { seq = 4; off = 5; bytes = 7 ∷ 9 ∷ []; tier = 1 }

abbrev store_of : Option (Store memory × Result ℕ) → Store memory
store_of none = before
store_of (some r) = r.0

abbrev after : Store memory
after = store_of (write_at_tier_sync disk before 2 (7 ∷ 9 ∷ []) 5 1 20)

writes : write_at_tier_sync disk before 2 (7 ∷ 9 ∷ []) 5 1 20 ≡ some (after, ok 2)
unfolding write_at_tier_sync append_to_with_tx_ctx split_payload node_update written_node decoded
    Kv.get append_batch_ctx stage stage_extent stripe_end stripe_of write_record put_segment
    fragment_batch active_ctx rotate rotated open_segment get_segment delete_segment has_room get
    append_ctx append_written write_file set commit apply_ops put_entry bytes_lt bytes_eq entry
    node_key encode_node decode_node put_le put_be le_at from_le
writes = refl

write_at_tier_sync-Kept_example :
    (2 ≡ length {A = ℕ} (7 ∷ 9 ∷ [])) × Kept memory_laws before after 2 5 (7 ∷ 9 ∷ []) 1 20
write_at_tier_sync-Kept_example =
    write_at_tier_sync-Kept memory_laws disk before after 2 5 7 (9 ∷ []) 1 20 2 (omega arith)
      (omega arith) (omega arith) (omega arith) (omega arith) before-Ready writes

found : get_buf before.coalescer.buffers 2 ≡ some buf
unfolding get_buf
found = refl

extents : append_extents 1 batch.extents ≡ extent ∷ []
unfolding append_extents
extents = refl

flush_inode-Durable_example :
    Failed memory_laws before (flush_inode disk before 2) 2 buf
    ⊎ Durable memory_laws before (flush_inode disk before 2) 2 buf batch (extent ∷ [])
flush_inode-Durable_example =
    flush_inode-Durable disk before 2 buf batch found refl refl refl memory_laws extent [] extents
      (omega arith)
      (record {
        hot_sound = before-Ready.hot_sound;
        cold_sound = before-Ready.cold_sound;
        hot_room = omega arith;
        cold_room = omega arith;
      })
      (omega arith, tt) (omega arith, tt, tt)
