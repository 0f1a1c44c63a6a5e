-- ===== src/Kv/Migrate/Examples.antt =====
-- A legacy database with a node, an entry and the next inode, and one with a stripe key that is too short.
use place.Common.{◌≡◌, refl, false, List, [], ◌∷◌, Option, none, some, arith, if◌then◌else◌}
use place.Common.Bytes.{put_be, be_at}
use place.Common.Lex.{bytes_lt}
use place.Errors.{Error, ok, err}
use place.Keys.{node_key, dirent_key}
use place.Kv.{Bytes, set, commit}
use place.Kv.Entries.{entry, bytes_eq, apply_ops, put_entry}
use place.Kv.Memory.{memory, memory_laws, empty}
use place.Kv.Migrate.{
  Bbolt, Files, MigrateFaults, meta_bucket, nodes_bucket, dirents_bucket, stripes_bucket,
  next_inode_name, copy_loop, copy_all, map_node, map_dirent, map_stripe, migrate_from_bolt,
  open_database,
}
use place.Kv.Migrate.Moved.{HasBuckets, legacy_entry, migrate_from_bolt-entry}
use place.Kv.Migrate.Interrupted.{open_database-interrupted}

abbrev Buckets : Type 0
Buckets = List (Bytes × List (Bytes × Bytes))

find : Buckets → Bytes → Option (List (Bytes × Bytes))
unfolding bytes_eq
find [] name = none
find ((n, b) ∷ l) name = if bytes_eq n name then some b else find l name

abbrev lists : Bbolt
lists = record {
  Db = Buckets;
  Bucket = List (Bytes × Bytes);
  tx_bucket = find;
  bucket_get = entry;
  for_each = λ b. b;
}

abbrev one : Bytes
one = 0 ∷ 0 ∷ 0 ∷ 0 ∷ 0 ∷ 0 ∷ 0 ∷ 1 ∷ []

abbrev legacy : Buckets
legacy =
    (meta_bucket, (next_inode_name, 2 ∷ []) ∷ [])
    ∷ (nodes_bucket, (one, 5 ∷ []) ∷ [])
    ∷ (dirents_bucket, (0 ∷ 0 ∷ 0 ∷ 0 ∷ 0 ∷ 0 ∷ 0 ∷ 1 ∷ b'a' ∷ [], one) ∷ [])
    ∷ []

abbrev no_faults : MigrateFaults
no_faults = record {
  stat_fails = false;
  bolt_open_fails = false;
  open_fails = false;
  close_fails = false;
  rename_fails = false;
}

abbrev before : Buckets → Files memory lists
before src = record { legacy = some src; pebble = none }

abbrev migrated : Files memory lists
migrated = (migrate_from_bolt empty no_faults (before legacy)).0

migrates : migrate_from_bolt empty no_faults (before legacy) ≡ (migrated, ok tt)
unfolding migrate_from_bolt copy_all copy_loop find commit set map_node map_dirent map_stripe
    apply_ops put_entry bytes_lt node_key dirent_key put_be be_at entry
migrates = refl

legacy-HasBuckets : HasBuckets lists legacy
unfolding find
legacy-HasBuckets = record {
  nodes = ((omega arith, tt), (tt, tt));
  dirents = ((omega arith, tt), (tt, tt));
  stripes = (tt, tt);
}

migrate_from_bolt-entry_example :
    (dst : memory.Db) × (migrated.legacy ≡ none)
    × (migrated.pebble ≡ some dst)
    × ((q : Bytes) → entry dst.list q ≡ legacy_entry lists legacy q)
migrate_from_bolt-entry_example =
    migrate_from_bolt-entry memory_laws lists legacy legacy-HasBuckets empty refl no_faults migrated
      migrates

-- The key of a stripe has 11 bytes and not 12.
abbrev damaged : Buckets
damaged = (nodes_bucket, (one, 5 ∷ []) ∷ []) ∷ (stripes_bucket, (0 ∷ 0 ∷ 0 ∷ one, []) ∷ []) ∷ []

abbrev halfway : Files memory lists
halfway = (migrate_from_bolt empty no_faults (before damaged)).0

fails : migrate_from_bolt empty no_faults (before damaged) ≡ (halfway, err Error.bad_key)
unfolding migrate_from_bolt copy_all copy_loop find commit set map_node map_stripe apply_ops
    put_entry node_key put_be be_at
fails = refl

abbrev left : memory.Db
left = (copy_all memory lists damaged empty).0

copied : halfway.pebble ≡ some left
unfolding migrate_from_bolt copy_all copy_loop find commit set map_node map_stripe apply_ops
    put_entry node_key put_be be_at
copied = refl

open_database-interrupted_example :
    (open_database empty no_faults halfway ≡ (halfway, ok left)) × (halfway.legacy ≡ some damaged)
open_database-interrupted_example =
    open_database-interrupted empty damaged halfway Error.bad_key no_faults no_faults left fails
      copied refl refl
