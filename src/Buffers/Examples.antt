-- ===== src/Buffers/Examples.antt =====
-- One inode with a batch that fills and one that is flushing, and the theorems at it.
use place.Common.{ℕ, ◌≡◌, refl, false, List, [], ◌∷◌, none, some, arith}
use place.Common.Int.{pos, ◌+ℤ◌}
use place.Coalescer.{BufExtent, BufBatch, InodeBuf}
use place.Buffers.{Coalescer, get_buf, begin_flush, invalidate_past_size, clip_freed}
use place.Buffers.Account.{Accounts, counted_in}
use place.Buffers.Steps.{began, Step-Accounts, invalidate_past_size-leak}

abbrev older : BufExtent
older = record { seq = 1; off = 0; bytes = 1 ∷ 2 ∷ 3 ∷ [] }

abbrev later : BufExtent
later = record { seq = 2; off = 2; bytes = 8 ∷ 9 ∷ [] }

abbrev batch : List BufExtent → ℕ → BufBatch
batch extents n = record { extents = extents; bytes = pos n; max_end = 4; mtime = 0 }

abbrev busy : InodeBuf
busy = record {
  tier = 2;
  current = some (batch (later ∷ []) 2);
  flushing = some (batch (older ∷ []) 3);
  on_disk_size = 0;
  on_disk_mtime = 0;
  live_size = 4;
  live_mtime = 0;
  poisoned = none;
}

abbrev busy_state : Coalescer
busy_state = record {
  stripe_size = 4;
  seq_gen = 2;
  held = pos 5;
  closing = false;
  buffers = (6, busy) ∷ [];
}

busy_state-Accounts : Accounts busy_state
unfolding ◌+ℤ◌
busy_state-Accounts = refl

found_busy : get_buf busy_state.buffers 6 ≡ some busy
unfolding get_buf
found_busy = refl

Step-Accounts_example : Accounts (begin_flush busy_state 6)
Step-Accounts_example =
    Step-Accounts busy_state (begin_flush busy_state 6) (omega arith) busy_state-Accounts (began 6)

invalidate_past_size-leak_example :
    (invalidate_past_size busy_state 6 1).held
    ≡ counted_in (invalidate_past_size busy_state 6 1).buffers +ℤ pos (clip_freed 1 (later ∷ []))
invalidate_past_size-leak_example =
    invalidate_past_size-leak busy_state 6 1 busy (batch (later ∷ []) 2) (batch (older ∷ []) 3)
      busy_state-Accounts found_busy refl refl
