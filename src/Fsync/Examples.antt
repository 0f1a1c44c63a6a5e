-- ===== src/Fsync/Examples.antt =====
-- A call of Fsync over one batch, and the theorems at it.
use place.Common.{true, ◌≡◌, refl, [], ◌∷◌, none, some, arith}
use place.Common.Int.{pos}
use place.Coalescer.{BufBatch}
use place.Buffers.{is_positive, swap_buf, settle_buf}
use place.Fsync.{
  Channels, Fsync, firing, waiting, returned, flushed, outcome_of, waits, snapshot, begin, settle,
  swap, flush, serve, wake, finish, Reach, start, next,
}
use place.Fsync.Valid.{IsValid, Step-IsValid}
use place.Fsync.Honest.{Settled, fsync-Settled}
use place.Fsync.Stuck.{total_bytes, here, later, fsync-waits}

abbrev batch : BufBatch
batch = record {
  extents = record { seq = 1; off = 0; bytes = 7 ∷ 9 ∷ [] } ∷ [];
  bytes = pos 2;
  max_end = 2;
  mtime = 5;
}

abbrev channels : Channels
channels = record {
  buf = record {
    tier = 1;
    current = some batch;
    flushing = none;
    on_disk_size = 0;
    on_disk_mtime = 0;
    live_size = 2;
    live_mtime = 5;
    poisoned = none;
  };
  current_done = 0;
  flushing_done = 0;
  made = 1;
  settled = [];
}

channels-IsValid : IsValid channels
unfolding outcome_of
channels-IsValid = record {
  current_open = λ b e. (omega arith, refl);
  flushing_open = λ f e. absurd (ground arith);
  apart = λ b f e e'. absurd (ground arith);
  unmade = λ w h. refl;
  honest = λ clean w e h. absurd (ground arith);
}

Step-IsValid_example : IsValid (begin channels)
Step-IsValid_example = Step-IsValid (swap (firing [])) channels-IsValid

abbrev last : Channels
last = settle (begin channels) 2 5 none

serves : Reach channels (snapshot channels) last (returned none)
unfolding snapshot waits begin swap_buf settle settle_buf outcome_of
serves =
    next
      (next (next (next start (serve (0 ∷ []))) (flush 2 5 none (waiting (0 ∷ []))))
        (wake 0 [] flushed refl))
      finish

fsync-Settled_example :
    ((f : BufBatch) → channels.buf.flushing ≡ some f → Settled last channels.flushing_done)
    × ((b : BufBatch)
        → channels.buf.current ≡ some b
        → is_positive b.bytes ≡ true
        → Settled last channels.current_done)
fsync-Settled_example = fsync-Settled channels-IsValid serves

fsync-waits_example : ◌≡◌ {A = Fsync} (waiting (0 ∷ [])) (waiting (0 ∷ []))
unfolding total_bytes outcome_of
fsync-waits_example =
    fsync-waits channels batch refl refl refl refl (later here (swap (waiting (0 ∷ []))) tt)
