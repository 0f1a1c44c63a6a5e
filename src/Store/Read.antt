-- ===== src/Store/Read.antt =====
-- store/handle.go, ReadAtCtx of an open file: its size, its fragments on disk and its buffer.
use place.Common.{true, false, ℕ, List, [], leb, ◌==◌, length}
use place.Fragment.{Locator}
use place.Coalescer.{Result, ok, err, store_failed}
use place.Buffers.{get_buf}
use place.Handle.{read_at_ctx}
use place.Handle.Buffered.{asked}
use place.Errors
use place.Kv.{Pebble}
use place.Index.{Index, fragments_in_range}
use place.Index
use place.Store.{Store, stat}

abbrev pub from_store {ℓ} : {R : Type ℓ} → Errors.Result R → Result R
from_store (Errors.ok r) = ok r
from_store (Errors.err e) = err (store_failed e)

module _ {p : Pebble} where
  -- idx.ReadAtCtx of a slice's locator, into as many bytes as the locator has.
  abbrev pub read_disk : Index p → Locator → Result (List ℕ)
  read_disk idx loc = from_store (Index.read_at idx loc loc.length)

  unfoldable pub read_at : Store p → ℕ → List ℕ → ℕ → Result (List ℕ)
  read_at s inode dest off = elim (length dest == 0) [
    | true ↦ ok []
    | false ↦ elim (stat s inode) [
      | Errors.err e ↦ err (store_failed e)
      | Errors.ok n ↦ elim (leb n.size off) [
        | true ↦ ok []
        | false ↦ elim (fragments_in_range s.index inode off (asked n.size (length dest) off)) [
          | Errors.err e ↦ err (store_failed e)
          | Errors.ok disk ↦
              read_at_ctx (read_disk s.index) (get_buf s.coalescer.buffers inode) disk n.size dest
                off
        ]
      ]
    ]
  ]
