-- ===== src/Fsync.antt =====
-- store/coalescer.go, Fsync against all else that happens to the inode's buffer. A batch's `done`
-- channel is a number, and `settled` has the channels that are closed, with what became of the batch.
pub mod Valid
pub mod Honest
pub mod Stuck
mod Examples
use place.Common.{
  ℕ, suc, ◌≡◌, Bool, false, List, [], ◌∷◌, ◌++◌, Option, none, some, ◌==◌, if◌then◌else◌, ◌+◌,
}
use place.Coalescer.{Error, Result, ok, err, BufBatch, InodeBuf, buffer_write, cancelled}
use place.Buffers.{swap_buf, settle_buf, invalidate_buf, is_positive, bytes_of}

pub data Outcome : Type 0 where
  flushed dropped : Outcome
  failed : Error → Outcome

pub record Channels : Type 0 where
  pub buf : InodeBuf
  pub current_done : ℕ
  pub flushing_done : ℕ
  pub made : ℕ
  pub settled : List (ℕ × Outcome)

-- Where a call of Fsync stands: its request in the queue, its waits, or its result.
pub data Fsync : Type 0 where
  firing : List ℕ → Fsync
  waiting : List ℕ → Fsync
  returned : Option Error → Fsync

unfoldable pub outcome_of : List (ℕ × Outcome) → ℕ → Option Outcome
outcome_of [] w = none
outcome_of ((v, o) ∷ l) w = if v == w then some o else outcome_of l w

abbrev pub waits_flushing : Option BufBatch → ℕ → List ℕ
waits_flushing none w = []
waits_flushing (some b) w = w ∷ []

-- needTrigger: a current batch with bytes in it.
abbrev pub need_trigger : InodeBuf → Bool
need_trigger buf = is_positive (bytes_of buf.current)

-- What Fsync takes down to wait for under the buffer's lock.
unfoldable pub waits : Channels → List ℕ
waits c =
    waits_flushing c.buf.flushing c.flushing_done
    ++ (if need_trigger c.buf then c.current_done ∷ [] else [])

unfoldable pub snapshot : Channels → Fsync
unfolding waits
snapshot c = elim c.buf.poisoned [
  | some e ↦ returned (some e)
  | none ↦ if need_trigger c.buf then firing (waits c) else waiting (waits c)
]

-- A batch made by newBufBatch where there was none.
unfoldable pub wrote : Channels → InodeBuf → Channels
wrote c buf' = elim c.buf.current [
  | some b ↦ record c { buf = buf' }
  | none ↦ record c { buf = buf'; current_done = c.made; made = suc c.made }
]

-- The swap of flushInode, where it does not bail out.
unfoldable pub begin : Channels → Channels
begin c = elim (swap_buf c.buf) [
  | none ↦ c
  | some (b, buf') ↦ record c {
    buf = buf';
    flushing_done = c.current_done;
    current_done = c.made;
    made = suc c.made;
  }
]

abbrev pub outcome : Option Error → Outcome
outcome none = flushed
outcome (some e) = failed e

unfoldable pub settle : Channels → ℕ → ℕ → Option Error → Channels
settle c end mtime e = elim c.buf.flushing [
  | none ↦ c
  | some b ↦ record c {
    buf = settle_buf c.buf end mtime e;
    settled = (c.flushing_done, outcome e) ∷ c.settled;
  }
]

-- Drop under the buffer's lock. A flush may have begun since Drop last looked.
unfoldable pub drop : Channels → Channels
drop c = elim c.buf.current [
  | none ↦ record c { buf = record c.buf { live_size = 0; live_mtime = 0 } }
  | some b ↦ record c {
    buf = record c.buf { current = none; live_size = 0; live_mtime = 0 };
    settled = (c.current_done, dropped) ∷ c.settled;
  }
]

unfoldable pub truncated : Channels → ℕ → Channels
truncated c size = record c { buf = (invalidate_buf c.buf size).0 }

-- One step of the buffer or of the call.
pub data Step (c : Channels) : Fsync → Channels → Fsync → Type 0 where
  write :
      (stripe_size gen now off : ℕ) (written : List ℕ) (buf' : InodeBuf) (gen' : ℕ) (f : Fsync)
      → buffer_write stripe_size gen now c.buf off written ≡ some (ok (buf', gen'))
      → Step c f (wrote c buf') f
  swap : (f : Fsync) → Step c f (begin c) f
  flush : (end mtime : ℕ) (e : Option Error) (f : Fsync) → Step c f (settle c end mtime e) f
  truncate : (size : ℕ) (f : Fsync) → Step c f (truncated c size) f
  forget : (f : Fsync) → Step c f (drop c) f
  serve : (ws : List ℕ) → Step c (firing ws) (begin c) (waiting ws)
  wake :
      (w : ℕ) (ws : List ℕ) (o : Outcome)
      → outcome_of c.settled w ≡ some o
      → Step c (waiting (w ∷ ws)) c (waiting ws)
  finish : Step c (waiting []) c (returned c.buf.poisoned)
  give_up_firing : (ws : List ℕ) → Step c (firing ws) c (returned (some cancelled))
  give_up_waiting : (ws : List ℕ) → Step c (waiting ws) c (returned (some cancelled))

pub data Reach (c : Channels) (f : Fsync) : Channels → Fsync → Type 0 where
  start : Reach c f c f
  next : {d d' : Channels} {g g' : Fsync} → Reach c f d g → Step d g d' g' → Reach c f d' g'
