-- ===== src/Index/Examples.antt =====
-- An index in memory with one fragment, and the theorems at it.
mod Converting
mod Moving
mod Stored
use place.Common.{
  ℕ, ◌≡◌, refl, true, false, List, [], ◌∷◌, ◌++◌, none, some, arith, if◌then◌else◌, inl,
}
use place.Common.Bytes.{put_le, put_be, from_le, le_at}
use place.Common.Lex.{bytes_lt, has_prefix}
use place.Errors.{ok}
use place.Keys.{
  fragment_key, stripe_prefix, stripe_all_prefix, prefix_upper_bound, bump_last, is_fragment_key,
}
use place.Fragment.{
  Fragment, Locator, encode_fragments, decode_fragments, decode_loop, encode_fragment_into,
  decode_fragment,
}
use place.Segment.{Segment}
use place.SegmentSet.{SegmentSet}
use place.Kv.{Bytes, delete, iter, commit}
use place.Kv.Entries.{entry, bytes_eq, apply_ops, remove_entry, range}
use place.Kv.Memory.{memory, memory_laws}
use place.Index.{Index, delete_inode, keys_of, delete_all, fragments_in, read_at}
use place.Index.Append.{AppendExtent, split_payload}
use place.Index.Pieces.{Pieces, split_payload_lem}
use place.Index.Gc.{GcFaults, gc}
use place.Index.Gc.Kept.{gc-read_at}
use place.Index.Forget.{delete_inode-entry}
use mathlib.Core.List.{Memᴰ}

abbrev pub fragment : Fragment
fragment = record {
  seq = 1;
  logical_off = 0;
  length = 2;
  tier = 1;
  segment_id = 3;
  segment_offset = 40;
}

abbrev locator : Locator
locator = record { tier = 1; segment_id = 3; offset = 40; length = 2 }

abbrev key : Bytes
key = fragment_key 2 0 1

abbrev pub no_segments : ℕ → List Segment → SegmentSet
no_segments tier segments = record {
  tier = tier;
  max_size = 1024;
  segments = segments;
  active = none;
  next_id = 9;
  stray = [];
}

abbrev index : Index memory
index = record {
  stripe_size = 4;
  db = record { list = (key, encode_fragments (fragment ∷ [])) ∷ []; in_order = (tt, tt) };
  hot =
      no_segments 1
        (record { id = 3; bytes = []; size = 0 } ∷ record { id = 5; bytes = []; size = 0 } ∷ []);
  cold = no_segments 2 [];
  seq_gen = 1;
}

abbrev emptied : Index memory
emptied = (delete_inode index 2).0

deletes : delete_inode index 2 ≡ (emptied, ok tt)
unfolding delete_inode iter commit range keys_of delete_all delete apply_ops remove_entry bytes_lt
    bytes_eq stripe_prefix prefix_upper_bound bump_last fragment_key put_be put_le encode_fragments
deletes = refl

delete_inode-entry_example :
    entry emptied.db.list (7 ∷ [])
    ≡ (if has_prefix (stripe_prefix 2) (7 ∷ []) then none else entry index.db.list (7 ∷ []))
delete_inode-entry_example =
    delete_inode-entry memory_laws index emptied 2 (7 ∷ []) (omega arith, tt) deletes

split_payload_lem_example :
    (es : List AppendExtent) × (idx' : Index memory) × (split_payload 5 index 2
        (1 ∷ 2 ∷ 3 ∷ 4 ∷ 5 ∷ [])
        1
        []
      ≡ some (idx', [] ++ es))
    × Pieces index es 2 (1 ∷ 2 ∷ 3 ∷ 4 ∷ 5 ∷ []) 1 idx'
split_payload_lem_example =
    split_payload_lem 5 index 2 (1 ∷ 2 ∷ 3 ∷ 4 ∷ 5 ∷ []) 1 [] (omega arith) (omega arith)
      (omega arith)

abbrev no_faults : GcFaults
no_faults = record {
  unlink_fails = λ id. false;
  fsync_fails = λ id. true;
  listing_fails = none;
  stray_unlink_fails = λ id. false;
}

scanned :
    iter memory index.db stripe_all_prefix (prefix_upper_bound stripe_all_prefix)
    ≡ ok ((key, encode_fragments (fragment ∷ [])) ∷ [])
unfolding iter range prefix_upper_bound bump_last bytes_lt fragment_key put_be put_le
    encode_fragments
scanned = refl

stored : Memᴰ fragment (fragments_in ((key, encode_fragments (fragment ∷ [])) ∷ []))
unfolding fragments_in is_fragment_key fragment_key put_be put_le encode_fragments decode_fragments
    decode_loop encode_fragment_into decode_fragment le_at from_le
stored = Memᴰ.head refl

gc-read_at_example : read_at (gc no_faults no_faults index).0 locator 2 ≡ read_at index locator 2
gc-read_at_example =
    gc-read_at no_faults no_faults index ((key, encode_fragments (fragment ∷ [])) ∷ []) fragment
      locator 2 refl refl scanned stored (inl refl) refl refl
