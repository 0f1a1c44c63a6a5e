-- ===== src/Kv/Migrate.antt =====
-- kv/migrate.go, MigrateFromBolt: the buckets of a legacy bbolt database copied into pebble; and what
-- Open of index/index.go makes of its result. bbolt is an argument: its buckets, Get and ForEach.
-- The reports to the progress function, which Open does not pass, are left out.
mod Names
mod Copied
mod Moved
mod Interrupted
mod Examples
use place.Common.{
  ℕ, suc, ◌%◌, Bool, true, false, List, [], ◌∷◌, Option, none, some, length, drop, leb, ◌==◌,
  if◌then◌else◌,
}
use place.Common.Bytes.{be_at}
use place.Errors.{Error, Result, ok, err}
use place.Keys.{store_next_inode_key, node_key, dirent_key, legacy_stripe_key}
use place.Kv.{Bytes, Pebble, Batch, new_batch, set, commit}

pub record Bbolt : Type 1 where
  pub Db : Type 0
  pub Bucket : Type 0
  pub tx_bucket : Db → Bytes → Option Bucket
  pub bucket_get : Bucket → Bytes → Option Bytes
  pub for_each : Bucket → List (Bytes × Bytes)

abbrev pub meta_bucket : Bytes
meta_bucket = b'_' ∷ b'l' ∷ b'4' ∷ b'_' ∷ b'm' ∷ b'e' ∷ b't' ∷ b'a' ∷ []

abbrev pub next_inode_name : Bytes
next_inode_name = b'n' ∷ b'e' ∷ b'x' ∷ b't' ∷ b'_' ∷ b'i' ∷ b'n' ∷ b'o' ∷ b'd' ∷ b'e' ∷ []

abbrev pub nodes_bucket : Bytes
nodes_bucket = b'n' ∷ b'o' ∷ b'd' ∷ b'e' ∷ b's' ∷ []

abbrev pub dirents_bucket : Bytes
dirents_bucket = b'd' ∷ b'i' ∷ b'r' ∷ b'e' ∷ b'n' ∷ b't' ∷ b's' ∷ []

abbrev pub stripes_bucket : Bytes
stripes_bucket = b's' ∷ b't' ∷ b'r' ∷ b'i' ∷ b'p' ∷ b'e' ∷ b's' ∷ []

-- The three functions that map a legacy key.
unfoldable pub map_node : Bytes → Result Bytes
map_node k = if length k == 8 then ok (node_key (be_at k 0 8)) else err Error.bad_key

unfoldable pub map_dirent : Bytes → Result Bytes
map_dirent k =
    if leb 8 (length k) then ok (dirent_key (be_at k 0 8) (drop 8 k)) else err Error.bad_key

unfoldable pub map_stripe : Bytes → Result Bytes
map_stripe k =
    if length k == 12 then ok (legacy_stripe_key (be_at k 0 8) (be_at k 8 4)) else err Error.bad_key

abbrev pub batch_size : ℕ
batch_size = 1024

module _ (bolt : Bbolt) where
  abbrev pub next_inode_of : Option bolt.Bucket → Option Bytes
  next_inode_of none = none
  next_inode_of (some b) = bolt.bucket_get b next_inode_name

module _ (p : Pebble) where
  -- The visit of each pair, and the commit after the last.
  unfoldable pub copy_loop :
      (Bytes → Result Bytes) → p.Db → Batch → ℕ → List (Bytes × Bytes) → p.Db × Result (Unit {0})
  copy_loop map_key dst batch count [] = commit p dst batch
  copy_loop map_key dst batch count ((k, v) ∷ rest) = elim (map_key k) [
    | err e ↦ (dst, err e)
    | ok dk ↦
        let batch' = set batch dk v in
        elim (suc count % batch_size == 0) [
          | false ↦ copy_loop map_key dst batch' (suc count) rest
          | true ↦
              let (dst', flushed) = commit p dst batch' in
              elim flushed [
                | err e ↦ (dst', err e)
                | ok u ↦ copy_loop map_key dst' new_batch (suc count) rest
              ]
        ]
  ]

  -- The work on the database so far, and the next part of it unless there was an error.
  infixl 5 ◌then◌
  abbrev pub ◌then◌ :
      p.Db × Result (Unit {0}) → (p.Db → p.Db × Result (Unit {0})) → p.Db × Result (Unit {0})
  (dst, err e) then next = (dst, err e)
  (dst, ok u) then next = next dst

  module _ (bolt : Bbolt) where
    abbrev pub copy_found :
        Option bolt.Bucket → (Bytes → Result Bytes) → p.Db → p.Db × Result (Unit {0})
    copy_found none map_key dst = (dst, ok tt)
    copy_found (some b) map_key dst = copy_loop map_key dst new_batch 0 (bolt.for_each b)

    abbrev pub copy_bucket :
        bolt.Db → Bytes → (Bytes → Result Bytes) → p.Db → p.Db × Result (Unit {0})
    copy_bucket src name map_key dst = copy_found (bolt.tx_bucket src name) map_key dst

    abbrev pub put_next_inode : Option Bytes → p.Db → p.Db × Result (Unit {0})
    put_next_inode none dst = (dst, ok tt)
    put_next_inode (some v) dst = commit p dst (set new_batch store_next_inode_key v)

    -- src.View
    unfoldable pub copy_all : bolt.Db → p.Db → p.Db × Result (Unit {0})
    copy_all src dst =
        put_next_inode (next_inode_of bolt (bolt.tx_bucket src meta_bucket)) dst
        then copy_bucket src nodes_bucket map_node
        then copy_bucket src dirents_bucket map_dirent
        then copy_bucket src stripes_bucket map_stripe

abbrev pub or_else {ℓ} : {A : Type ℓ} → Option A → A → A
or_else none a = a
or_else (some b) a = b

-- What the directory holds: the legacy file, if it is there, and pebble's database, if its CURRENT is.
pub record Files (p : Pebble) (bolt : Bbolt) : Type 0 where
  pub legacy : Option bolt.Db
  pub pebble : Option p.Db

-- What the operating system and the two databases' Open and Close do.
pub record MigrateFaults : Type 0 where
  pub stat_fails : Bool
  pub bolt_open_fails : Bool
  pub open_fails : Bool
  pub close_fails : Bool
  pub rename_fails : Bool

-- The part of Open that a failure of it does.
abbrev pub unless {ℓ} :
    {A : Type ℓ} → Bool → Error → A → A × Result (Unit {0}) → A × Result (Unit {0})
unless true e before rest = (before, err e)
unless false e before rest = rest

-- `fresh` is the empty database that pebble makes where there is none.
module _ {p : Pebble} {bolt : Bbolt} (fresh : p.Db) (faults : MigrateFaults) where
  -- src.Close and the renaming, once all was copied.
  abbrev pub retire : bolt.Db → p.Db × Result (Unit {0}) → Files p bolt × Result (Unit {0})
  retire src (dst, err e) = (record { legacy = some src; pebble = some dst }, err e)
  retire src (dst, ok u) =
      let copied : Files p bolt = record { legacy = some src; pebble = some dst } in
      unless faults.close_fails Error.db_failed copied (
        unless faults.rename_fails Error.db_failed copied
          (record { legacy = none; pebble = some dst }, ok tt))

  unfoldable pub migrate_from_bolt : Files p bolt → Files p bolt × Result (Unit {0})
  migrate_from_bolt files = elim files.legacy [
    | none ↦ if faults.stat_fails then (files, err Error.db_failed) else (files, ok tt)
    | some src ↦ unless faults.stat_fails Error.db_failed files (elim files.pebble [
      | some dst ↦ (files, err Error.already_migrated)
      | none ↦
          unless faults.bolt_open_fails Error.db_failed files (
            unless faults.open_fails Error.db_failed files (retire src (copy_all p bolt src fresh)))
    ])
  ]

  -- Open's use of it, up to the database that the index is opened on: pebble makes one if there is
  -- none.
  abbrev pub go_on : Files p bolt → Files p bolt × Result p.Db
  go_on files =
      let dst = or_else files.pebble fresh in
      if faults.open_fails
      then (files, err Error.db_failed)
      else (record files { pebble = some dst }, ok dst)

  abbrev pub opened : Files p bolt × Result (Unit {0}) → Files p bolt × Result p.Db
  opened (files, ok u) = go_on files
  opened (files, err Error.already_migrated) = go_on files
  opened (files, err e) = (files, err e)

  unfoldable pub open_database : Files p bolt → Files p bolt × Result p.Db
  open_database files = opened (migrate_from_bolt files)
