-- ===== src/Index/Examples/Stored.antt =====
-- Two extents that are appended, and the theorem at them.
use place.Common.{◌≡◌, refl, false, [], ◌∷◌, none, arith, All}
use place.Common.Lex.{bytes_lt}
use place.Errors.{ok}
use place.Segment.{whole, append_ctx, append_written, write_file}
use place.SegmentSet.{
  active_ctx, rotate, rotated, open_segment, get_segment, delete_segment, has_room, get,
}
use place.Kv.{set, commit}
use place.Kv.Entries.{entry, bytes_eq, apply_ops, put_entry}
use place.Kv.Memory.{memory, memory_laws}
use place.Index.{Index, stripe_of}
use place.Index.Append.{
  AppendExtent, Disk, append_batch_ctx, stage, stage_extent, stripe_end, write_record, put_segment,
  fragment_batch,
}
use place.Index.Staging.{Ready}
use place.Index.Appended.{append_batch_ctx-Found, none-Spares, Found, key_of}
use place.Index.Examples.{index}

abbrev extent : AppendExtent
extent = record { seq = 2; off = 5; bytes = 7 ∷ 9 ∷ []; tier = 1 }

abbrev other : AppendExtent
other = record { seq = 3; off = 2; bytes = 4 ∷ []; tier = 2 }

abbrev pub good : Disk
good = record {
  rotations = λ i. record { sync_fails = false; open_fails = false; fsync_dir_fails = false };
  writes = λ i. whole;
  sync_fails = λ i. false;
}

abbrev appended : Index memory
appended = (append_batch_ctx good index 2 (extent ∷ other ∷ []) none).0

appends : append_batch_ctx good index 2 (extent ∷ other ∷ []) none ≡ (appended, ok tt)
unfolding append_batch_ctx stage stage_extent stripe_end stripe_of write_record put_segment
    fragment_batch active_ctx rotate rotated open_segment get_segment delete_segment has_room get
    append_ctx append_written write_file set commit apply_ops put_entry bytes_lt bytes_eq
appends = refl

index-Ready : Ready 2 index
index-Ready = record {
  hot_sound = record { steps = (refl, (refl, tt)); below = (omega arith, (omega arith, tt)) };
  cold_sound = record { steps = tt; below = tt };
  hot_room = omega arith;
  cold_room = omega arith;
}

append_batch_ctx-Found_example :
    All
      (λ d. Found 2 appended d (entry appended.db.list (key_of 2 appended d)))
      (extent ∷ other ∷ [])
append_batch_ctx-Found_example =
    append_batch_ctx-Found memory_laws index appended 2 extent (other ∷ []) good none
      (none-Spares memory) index-Ready (omega arith, (omega arith, tt))
      (omega arith, (refl, tt), (omega arith, tt, tt)) appends
