-- ===== src/Kv.antt =====
-- kv/db.go, the wrapper of the pebble database. Pebble itself is a parameter: a state, point reads,
-- range reads, and the commit of a batch. `Kv.Laws` says what pebble documents of them.
pub mod Entries
pub mod Laws
pub mod Memory
pub mod Migrate
pub mod Names
use place.Common.{Bool, true, false, List, [], ◌∷◌, ◌++◌, ℕ, Option, none, some, if◌then◌else◌}
use place.Errors.{Error, Result, ok, err}

abbrev pub Bytes : Type 0
Bytes = List ℕ

pub data Op : Type 0 where
  put : Bytes → Bytes → Op
  remove : Bytes → Op

-- pebble.DB.Get: a value, ErrNotFound, or another error.
pub data Found : Type 0 where
  found : Bytes → Found
  not_found : Found
  failed : Found

-- The keys and values of [lo, hi) in the order of an iterator's Next; `none` is no upper bound. A
-- commit says whether it succeeded.
pub record Pebble : Type 1 where
  pub Db : Type 0
  pub pebble_get : Db → Bytes → Found
  pub pebble_iter : Db → Bytes → Option Bytes → Result (List (Bytes × Bytes))
  pub pebble_commit : Db → List Op → Db × Bool

-- kv.Batch: the queued writes, oldest first.
abbrev pub Batch : Type 0
Batch = List Op

abbrev pub new_batch : Batch
new_batch = []

unfoldable pub set : Batch → Bytes → Bytes → Batch
set b key value = b ++ put key value ∷ []

unfoldable pub delete : Batch → Bytes → Batch
delete b key = b ++ remove key ∷ []

module _ (p : Pebble) where
  -- DB.Get: `none` is nil, the absent key.
  unfoldable pub get : p.Db → Bytes → Result (Option Bytes)
  get db key = elim (p.pebble_get db key) [
    | found v ↦ ok (some v)
    | not_found ↦ ok none
    | failed ↦ err Error.db_failed
  ]

  unfoldable pub has : p.Db → Bytes → Result Bool
  has db key = elim (p.pebble_get db key) [
    | found v ↦ ok true
    | not_found ↦ ok false
    | failed ↦ err Error.db_failed
  ]

  -- DB.Iter with First, Valid and Next over the whole range.
  unfoldable pub iter : p.Db → Bytes → Option Bytes → Result (List (Bytes × Bytes))
  iter db lo hi = p.pebble_iter db lo hi

  -- Commit: the database after it, and its error.
  unfoldable pub commit : p.Db → Batch → p.Db × Result (Unit {0})
  commit db b =
      let (db', succeeded) = p.pebble_commit db b in
      (db', if succeeded then ok tt else err Error.commit_failed)
