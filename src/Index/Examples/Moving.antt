-- ===== src/Index/Examples/Moving.antt =====
-- A stripe with a fragment in each tier that is moved to the cold one.
use place.Common.{some, ◌≡◌, refl, sym, List, [], ◌∷◌, true, arith, All, length, ◌+◌, ◌^◌, ◌<◌}
use place.Common.Bytes.{put_le, put_be, from_le, le_at}
use place.Common.Lex.{bytes_lt}
use place.Errors.{ok}
use place.Keys.{
  fragment_key, fragment_stripe_prefix, prefix_upper_bound, bump_last, is_fragment_key,
}
use place.Fragment.{
  Fragment, tier_cold, encode_fragments, decode_fragments, decode_loop, encode_fragment_into,
  decode_fragment, canonical_view, canonical_sorted, sort_by, cover, subtract, emitted, left_over,
  min_off, max_end,
}
use place.Fragment.Owner.{newest}
use place.Segment.{append_ctx, append_written, write_file}
use place.Segment
use place.SegmentSet.{
  active_ctx, rotate, rotated, open_segment, get_segment, delete_segment, has_room, get,
}
use place.Kv.{set, delete, commit, iter}
use place.Kv.Entries.{bytes_eq, apply_ops, put_entry, remove_entry, range}
use place.Kv.Memory.{memory, memory_laws}
use place.Index.{Index, delete_all, fragments_in}
use place.Index.Append.{write_record, put_segment}
use place.Index.Move.{
  fragment_keys, set_fragments, source_bytes, copy_fragment, move_fragments, move,
}
use place.Index.Staging.{Ready, along}
use place.Index.Moved.{AllMoved, Rises}
use place.Index.Relocated.{stripe_entries, Stored, move-Stored}
use place.Index.Examples.{no_segments}
use place.Index.Examples.Stored.{good}

abbrev hot_part : Fragment
hot_part = record {
  seq = 1;
  logical_off = 0;
  length = 2;
  tier = 1;
  segment_id = 3;
  segment_offset = 0;
}

abbrev cold_part : Fragment
cold_part = record {
  seq = 2;
  logical_off = 2;
  length = 1;
  tier = 2;
  segment_id = 4;
  segment_offset = 1;
}

ordered : bytes_lt (fragment_key 2 0 1) (fragment_key 2 0 2) ≡ true
unfolding bytes_lt fragment_key put_be
ordered = refl

abbrev mixed : Index memory
mixed = record {
  stripe_size = 4;
  db = record {
    list =
        (fragment_key 2 0 1, encode_fragments (hot_part ∷ []))
        ∷ (fragment_key 2 0 2, encode_fragments (cold_part ∷ []))
        ∷ [];
    in_order = ((ordered, tt), (tt, tt));
  };
  hot = no_segments 1 (record { id = 3; bytes = 7 ∷ 8 ∷ []; size = 2 } ∷ []);
  cold = no_segments 2 (record { id = 4; bytes = 0 ∷ 9 ∷ []; size = 2 } ∷ []);
  seq_gen = 3;
}

abbrev moved : Index memory
moved = (move good mixed 2 0 tier_cold).0

moves : move good mixed 2 0 tier_cold ≡ (moved, ok tt)
unfolding move iter commit range bytes_lt fragment_stripe_prefix prefix_upper_bound bump_last
    fragment_key put_be put_le encode_fragments fragments_in is_fragment_key decode_fragments
    decode_loop encode_fragment_into decode_fragment le_at from_le canonical_view canonical_sorted
    sort_by cover subtract emitted left_over min_off max_end move_fragments copy_fragment
    source_bytes get get_segment Segment.read_at write_record active_ctx rotate rotated open_segment
    delete_segment has_room append_ctx append_written write_file put_segment fragment_keys
    set_fragments delete_all delete set apply_ops put_entry remove_entry bytes_eq
moves = refl

there :
    fragments_in (stripe_entries memory_laws good mixed moved 2 0 tier_cold)
    ≡ hot_part ∷ cold_part ∷ []
unfolding range bytes_lt fragment_stripe_prefix prefix_upper_bound bump_last fragment_key put_be
    put_le encode_fragments fragments_in is_fragment_key decode_fragments decode_loop
    encode_fragment_into decode_fragment le_at from_le
there = refl

viewed : canonical_view (hot_part ∷ cold_part ∷ []) ≡ hot_part ∷ cold_part ∷ []
unfolding canonical_view canonical_sorted sort_by cover subtract emitted left_over min_off max_end
viewed = refl

mixed-Ready : Ready 2 mixed
mixed-Ready = record {
  hot_sound = record { steps = (refl, tt); below = (omega arith, tt) };
  cold_sound = record { steps = (refl, tt); below = (omega arith, tt) };
  hot_room = omega arith;
  cold_room = omega arith;
}

move-Stored_example :
    (gs : List Fragment) × AllMoved tier_cold mixed moved
      (canonical_view (hot_part ∷ cold_part ∷ []))
      gs
    × Rises 3 gs
    × Stored memory_laws good mixed moved 2 0 tier_cold gs
move-Stored_example =
    move-Stored memory_laws good mixed moved 2 0 tier_cold hot_part (cold_part ∷ []) there
      (along (λ v. Ready (length v) mixed) (sym viewed) mixed-Ready)
      (along (λ v. 3 + length v < 2 ^ 64) (sym viewed) (omega arith))
      (along (All (λ g. g.length < 2 ^ 32)) (sym viewed) (omega arith, (omega arith, tt))) moves

-- Byte 0 is written again before the move and not flushed yet, under the number 3.
abbrev overwrite : Fragment
overwrite = record {
  seq = 3;
  logical_off = 0;
  length = 1;
  tier = 1;
  segment_id = 0;
  segment_offset = 0;
}

-- A read after the move takes the old byte.
old_byte_wins :
    newest (overwrite ∷ fragments_in moved.db.list) 0
    ≡ some (record hot_part { seq = 4; tier = tier_cold; segment_id = 9; segment_offset = 40 })
unfolding move iter commit range bytes_lt fragment_stripe_prefix prefix_upper_bound bump_last
    fragment_key put_be put_le encode_fragments fragments_in is_fragment_key decode_fragments
    decode_loop encode_fragment_into decode_fragment le_at from_le canonical_view canonical_sorted
    sort_by cover subtract emitted left_over min_off max_end move_fragments copy_fragment
    source_bytes get get_segment Segment.read_at write_record active_ctx rotate rotated open_segment
    delete_segment has_room append_ctx append_written write_file put_segment fragment_keys
    set_fragments delete_all delete set apply_ops put_entry remove_entry bytes_eq newest
old_byte_wins = refl
