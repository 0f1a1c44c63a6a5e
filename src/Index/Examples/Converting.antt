-- ===== src/Index/Examples/Converting.antt =====
-- A blob of two fragments that is converted, and the same by an Open that cuts a segment's tail off.
use place.Common.{none, some, false, ◌≡◌, refl, [], ◌∷◌, arith, All, ◌<◌, ◌^◌, ◌+◌}
use place.Common.Bytes.{put_le, put_be, from_le, le_at}
use place.Common.Lex.{bytes_lt}
use place.Errors.{ok}
use place.Keys.{
  stripe_inode_from_fragment_key, stripe_id_from_fragment_key, legacy_stripe_key, fragment_key,
  prefix_upper_bound, bump_last, is_legacy_stripe_key,
}
use place.Fragment.{
  Fragment, encode_fragments, decode_fragments, decode_loop, encode_fragment_into, decode_fragment,
}
use place.Kv.{iter, commit}
use place.Kv.Entries.{entry, bytes_eq, range}
use place.Kv.Memory.{memory, memory_laws}
use place.Index.{Index}
use place.Index.Migrate.{no_legacy, scan_legacy, add_legacy, migrate_blobs_to_fragments}
use place.Index.Split.{blob_keys, blob_sets, seqs_of}
use place.Index.Conversion.{Single}
use place.Index.Migrated.{stripes, converted, migrate_blobs_to_fragments-converted}
use place.Sizes.{parse_digits}
use place.Fragment.{sort_by, insert_by}
use place.Index.Append.{put_segment}
use place.Segment.{scan, scan_loop, truncate}
use place.SegmentSet.{repair_segment, cut_to, delete_segment, get_segment, open_segment}
use place.SegmentSet.Open.{open_set, activated, open_loop, last, opened}
use place.Index.Open.{Tier, open_index, open_parts, repair_tail}
use place.Index.Opened.{open_index-Sound}
use place.Index.Lasting.{Sound}
use place.SegmentSet.Names.{listed_ids, seg_suffix, entry_id, parse_uint32}
use place.Kv.Migrate.{Bbolt, Files, MigrateFaults, open_database, migrate_from_bolt}
use place.Index.Examples.{fragment, no_segments}

abbrev later : Fragment
later = record fragment { seq = 7; segment_offset = 90 }

abbrev legacy : Index memory
legacy = record {
  stripe_size = 4;
  db = record {
    list = (legacy_stripe_key 2 0, encode_fragments (fragment ∷ later ∷ [])) ∷ [];
    in_order = (tt, tt);
  };
  hot = record (no_segments 1 (record { id = 0; bytes = []; size = 0 } ∷ [])) {
    active = some 0;
    next_id = 1;
  };
  cold = record (no_segments 2 []) { next_id = 0 };
  seq_gen = 3;
}

abbrev migrated : Index memory
migrated = (migrate_blobs_to_fragments legacy).0

migrates : migrate_blobs_to_fragments legacy ≡ (migrated, ok tt)
unfolding migrate_blobs_to_fragments iter commit range scan_legacy bytes_lt legacy_stripe_key put_be
    prefix_upper_bound is_legacy_stripe_key add_legacy decode_fragments decode_loop encode_fragments
    encode_fragment_into put_le
migrates = refl

small : (scan_legacy (stripes memory_laws legacy.db) no_legacy).max_seq + 1 < 2 ^ 64
unfolding range bytes_lt prefix_upper_bound bump_last legacy_stripe_key put_be put_le scan_legacy
    add_legacy is_legacy_stripe_key decode_fragments decode_loop decode_fragment encode_fragments
    encode_fragment_into le_at from_le
small = omega arith

single : Single (blob_sets (stripes memory_laws legacy.db))
unfolding range bytes_lt bytes_eq prefix_upper_bound bump_last legacy_stripe_key fragment_key put_be
    put_le is_legacy_stripe_key decode_fragments decode_loop decode_fragment encode_fragments
    encode_fragment_into le_at from_le stripe_inode_from_fragment_key stripe_id_from_fragment_key
single = ((refl, tt), (tt, tt))

migrate_blobs_to_fragments-converted_example :
    (entry migrated.db.list (fragment_key 2 0 7)
      ≡ converted memory_laws legacy (fragment_key 2 0 7))
    × (blob_keys (stripes memory_laws migrated.db) ≡ [])
    × All (λ e. All (λ s. s < migrated.seq_gen) (seqs_of e)) (stripes memory_laws legacy.db)
migrate_blobs_to_fragments-converted_example =
    migrate_blobs_to_fragments-converted memory_laws legacy migrated (fragment_key 2 0 7)
      (omega arith) small single migrates

abbrev no_bolt : Bbolt
no_bolt = record {
  Db = Unit {0};
  Bucket = Unit {0};
  tx_bucket = λ db name. none;
  bucket_get = λ b k. none;
  for_each = λ b. [];
}

abbrev no_faults : MigrateFaults
no_faults = record {
  stat_fails = false;
  bolt_open_fails = false;
  open_fails = false;
  close_fails = false;
  rename_fails = false;
}

abbrev on_disk : Files memory no_bolt
on_disk = record { legacy = none; pebble = some legacy.db }

-- 0.seg with one byte, which is no record.
abbrev torn : Tier
torn = record {
  listing_fails = false;
  listing = record { name = b'0' ∷ seg_suffix; is_dir = false } ∷ [];
  files = record { id = 0; bytes = 7 ∷ []; size = 1 } ∷ [];
  fails = λ id. false;
}

abbrev bare : Tier
bare = record { listing_fails = false; listing = []; files = []; fails = λ id. false }

parts : open_parts 4 1024 3 torn bare legacy.db ≡ ok legacy
unfolding open_parts open_set activated open_loop sort_by listed_ids entry_id bytes_eq parse_uint32
    parse_digits repair_tail last get_segment opened open_segment repair_segment insert_by
    put_segment scan scan_loop truncate cut_to delete_segment
parts = refl

torn_room : All (λ id. id + 1 < 2 ^ 32) (listed_ids torn.listing)
unfolding listed_ids entry_id bytes_eq parse_uint32 parse_digits
torn_room = (omega arith, tt)

found_db : (open_database legacy.db no_faults on_disk).1 ≡ ok legacy.db
unfolding open_database migrate_from_bolt
found_db = refl

reopens : open_index 4 1024 3 torn bare legacy.db no_faults on_disk ≡ ok migrated
unfolding open_index
reopens = rw (open_index, found_db, parts, migrates) refl

open_index-Sound_example :
    Sound migrated.hot
    × Sound migrated.cold
    × (blob_keys (stripes memory_laws migrated.db) ≡ [])
    × All (λ e. All (λ s. s < migrated.seq_gen) (seqs_of e)) (stripes memory_laws legacy.db)
unfolding listed_ids
open_index-Sound_example =
    open_index-Sound 4 1024 3 torn bare memory_laws legacy.db no_faults on_disk legacy.db migrated
      torn_room tt (omega arith) found_db small single reopens
