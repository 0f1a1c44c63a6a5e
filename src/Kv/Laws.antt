-- ===== src/Kv/Laws.antt =====
-- What pebble documents: the database is a sorted map from keys to values, reads see all of it, and
-- a batch is committed as a whole or not at all.
use place.Common.{
  ◌≡◌, refl, arith, Option-cases, Bool-cases, inl, inr, List, Option, none, some, if◌then◌else◌,
}
use place.Errors.{ok}
use place.Kv.{Bytes, Op, Found, found, not_found, Pebble, Batch, get, iter, commit}
use place.Kv.Entries.{IsSorted, entry, apply_ops, range}

abbrev pub found_of : Option Bytes → Found
found_of none = not_found
found_of (some v) = found v

-- Reads that do not fail, and commits that may.
pub record Laws (p : Pebble) : Type 0 where
  pub entries : p.Db → List (Bytes × Bytes)
  pub sorted : (db : p.Db) → IsSorted (entries db)
  pub get_law : (db : p.Db) (k : Bytes) → p.pebble_get db k ≡ found_of (entry (entries db) k)
  pub iter_law :
      (db : p.Db) (lo : Bytes) (hi : Option Bytes)
      → p.pebble_iter db lo hi ≡ ok (range (entries db) lo hi)
  pub commit_law :
      (db : p.Db) (ops : List Op)
      → entries (p.pebble_commit db ops).0
        ≡ (if (p.pebble_commit db ops).1 then apply_ops ops (entries db) else entries db)

module _ (p : Pebble) (laws : Laws p) where
  pub get_lem : (db : p.Db) (k : Bytes) → get p db k ≡ ok (entry (laws.entries db) k)
  unfolding get
  get_lem db k = elim (Option-cases (entry (laws.entries db) k)) [
    | inl absent ↦ rw (laws.get_law db k, get) (rw absent refl)
    | inr (v, present) ↦ rw (laws.get_law db k, get) (rw present refl)
  ]

  pub iter_lem :
      (db : p.Db) (lo : Bytes) (hi : Option Bytes)
      → iter p db lo hi ≡ ok (range (laws.entries db) lo hi)
  unfolding iter
  iter_lem db lo hi = laws.iter_law db lo hi

  pub commit_lem :
      (db db' : p.Db) (b : Batch)
      → commit p db b ≡ (db', ok tt)
      → laws.entries db' ≡ apply_ops b (laws.entries db)
  unfolding commit
  commit_lem db db' b e = elim (Bool-cases (p.pebble_commit db b).1) [
    | inl succeeded ↦
        let same : (p.pebble_commit db b).0 ≡ db' = ground (arith, succeeded) in
        rw (← same, laws.commit_law db b, succeeded) refl
    | inr aborted ↦ absurd (ground (arith, aborted))
  ]
