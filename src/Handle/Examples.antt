-- ===== src/Handle/Examples.antt =====
-- Reads of one buffered write, from its start and from its middle.
use place.Common.{ℕ, ◌≡◌, refl, List, [], ◌∷◌, none, some, arith, replicate}
use place.Common.Int.{pos}
use place.Fragment.{Locator}
use place.Coalescer.{Error, Result, err, BufExtent, InodeBuf}
use place.Handle.{read_at_ctx}
use place.Handle.Buffered.{Holds, read_at_ctx-inside_extent}

abbrev no_segments : Locator → Result (List ℕ)
no_segments loc = err Error.no_buffer

abbrev extent : BufExtent
extent = record { seq = 5; off = 10; bytes = 1 ∷ 2 ∷ 3 ∷ 4 ∷ [] }

abbrev one_write : InodeBuf
one_write = record {
  tier = 2;
  current = some (record { extents = extent ∷ []; bytes = pos 4; max_end = 14; mtime = 0 });
  flushing = none;
  on_disk_size = 0;
  on_disk_mtime = 0;
  live_size = 14;
  live_mtime = 0;
  poisoned = none;
}

one_write-Holds : Holds one_write extent
one_write-Holds = record { only = refl; settled = refl }

read_at_ctx-inside_extent_example :
    read_at_ctx no_segments (some one_write) [] 14 (replicate 2 0) 11 ≡ err Error.extent_gone
read_at_ctx-inside_extent_example =
    read_at_ctx-inside_extent no_segments one_write extent 14 11 (replicate 2 0) one_write-Holds
      (omega arith) (omega arith) (omega arith) (omega arith)
