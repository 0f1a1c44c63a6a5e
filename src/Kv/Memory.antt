-- ===== src/Kv/Memory.antt =====
-- A database that is a sorted list: the laws can hold.
use place.Common.{refl, true, List}
use place.Errors.{ok}
use place.Kv.{Bytes, Pebble}
use place.Kv.Entries.{IsSorted, entry, apply_ops, range}
use place.Kv.Entries.Sorted.{apply_ops-IsSorted}
use place.Kv.Laws.{Laws, found_of}

pub record Memory : Type 0 where
  pub list : List (Bytes × Bytes)
  pub in_order : IsSorted list

abbrev pub memory : Pebble
memory = record {
  Db = Memory;
  pebble_get = λ db k. found_of (entry db.list k);
  pebble_iter = λ db lo hi. ok (range db.list lo hi);
  pebble_commit = λ db ops. (
    record { list = apply_ops ops db.list; in_order = apply_ops-IsSorted ops db.list db.in_order },
    true,
  );
}

abbrev pub empty : Memory
empty = record { list = List.[]; in_order = tt }

abbrev pub memory_laws : Laws memory
memory_laws = record {
  entries = λ db. db.list;
  sorted = λ db. db.in_order;
  get_law = λ db k. refl;
  iter_law = λ db lo hi. refl;
  commit_law = λ db ops. refl;
}
