-- ===== src/Mover/Examples.antt =====
-- A tick of 30 and a longest sleep of 300, and a stripe that is moved to the cold tier.
use place.Common.{arith, ℕ, ◌≡◌, ◌+◌, refl, false, List, [], ◌∷◌, none}
use place.Common.Bytes.{put_le, put_be, from_le, le_at}
use place.Common.Lex.{bytes_lt}
use place.Errors.{ok}
use place.Keys.{
  fragment_key, fragment_stripe_prefix, prefix_upper_bound, bump_last, is_fragment_key,
}
use place.Fragment.{
  encode_fragments, decode_fragments, decode_loop, encode_fragment_into, decode_fragment,
  canonical_view, canonical_sorted, sort_by, cover, subtract, emitted, apart, insert_by, left_over,
  max_end, min_off, ov_end, ov_start,
}
use place.Segment.{Segment, whole, append_ctx, append_written, write_file}
use place.Segment
use place.SegmentSet.{
  SegmentSet, active_ctx, rotate, rotated, open_segment, get_segment, delete_segment, has_room, get,
}
use place.Kv.{iter, commit}
use place.Kv.Entries.{range}
use place.Kv.Memory.{memory}
use place.Index.{Index, hot_used_bytes, used_bytes, fragments_in}
use place.Index.Append.{Disk, write_record, put_segment}
use place.Index.Move.{
  move, move_fragments, copy_fragment, source_bytes, fragment_keys, set_fragments,
}
use place.Mover.Evict.{Cand, Mover, evict_loop}
use place.Mover.Pressure.{moved_all, moves_made, tried, evict_loop-moved_all}

abbrev sets : ℕ → List Segment → SegmentSet
sets tier segments = record {
  tier = tier;
  max_size = 1024;
  segments = segments;
  active = none;
  next_id = 1;
  stray = [];
}

abbrev index : Index memory
index = record {
  stripe_size = 4;
  db = record {
    list =
        (
          fragment_key 2 0 1,
          encode_fragments (
              record {
                seq = 1;
                logical_off = 0;
                length = 2;
                tier = 1;
                segment_id = 0;
                segment_offset = 0;
              }
              ∷ []),
        )
        ∷ [];
    in_order = (tt, tt);
  };
  hot = sets 1 (record { id = 0; bytes = 7 ∷ 9 ∷ []; size = 2 } ∷ []);
  cold = sets 2 [];
  seq_gen = 1;
}

abbrev disk : Disk
disk = record {
  rotations = λ i. record { sync_fails = false; open_fails = false; fsync_dir_fails = false };
  writes = λ i. whole;
  sync_fails = λ i. false;
}

abbrev cands : List Cand
cands = record { inode = 2; stripe_id = 0; hot_bytes = 2 } ∷ []

abbrev mover : ℕ → ℕ → Mover
mover moves_ok bytes_moved = record {
  hot_max_bytes = 1;
  hot_target_bytes = 1;
  evict_runs = 1;
  gc_runs = 0;
  moves_ok = moves_ok;
  move_failures = 0;
  bytes_moved = bytes_moved;
}

abbrev cooled : Index memory
cooled = (move disk index 2 0 2).0

evicts : evict_loop (λ i. false) (λ i. disk) 0 (mover 0 0) index cands ≡ (mover 1 2, cooled, ok tt)
unfolding evict_loop hot_used_bytes used_bytes move move_fragments copy_fragment source_bytes
    fragment_keys set_fragments iter range fragment_stripe_prefix prefix_upper_bound bump_last
    fragments_in bytes_lt fragment_key put_be is_fragment_key decode_fragments decode_loop
    encode_fragments encode_fragment_into put_le canonical_view canonical_sorted sort_by cover
    subtract emitted decode_fragment from_le le_at apart insert_by left_over max_end min_off ov_end
    ov_start put_segment write_record append_ctx append_written Segment.read_at write_file
    active_ctx delete_segment get get_segment has_room open_segment rotate rotated commit
evicts = refl

abbrev far_away : Index memory
far_away = moved_all (λ i. disk) 0 index cands

evict_loop-moved_all_example :
    ((evict_loop (λ i. false) (λ i. disk) 0 (mover 0 0) index cands).1 ≡ far_away)
    × ((evict_loop (λ i. false) (λ i. disk) 0 (mover 0 0) index cands).2 ≡ ok tt)
    × (tried (evict_loop (λ i. false) (λ i. disk) 0 (mover 0 0) index cands).0 ≡ 0 + 0 + 1)
    × ((evict_loop (λ i. false) (λ i. disk) 0 (mover 0 0) index cands).0.moves_ok
        ≡ 0 + moves_made (λ i. disk) 0 index cands)
    × (hot_used_bytes far_away ≡ hot_used_bytes index)
unfolding hot_used_bytes used_bytes
evict_loop-moved_all_example =
    evict_loop-moved_all (λ i. false) (λ i. disk) 0 (mover 0 0) index cands (λ j. refl)
      (omega arith)
