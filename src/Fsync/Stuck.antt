-- ===== src/Fsync/Stuck.antt =====
-- A truncation that empties the batch that Fsync waits for.
use place.Common.{
  ℕ, ◌+◌, ◌≡◌, refl, sym, ap, ◌∙◌, List, [], ◌∷◌, Option, none, some, arith, length, Option-cases,
  inl, inr,
}
use place.Common.Int.{pos, ◌-ℤ◌}
use place.Coalescer.{Error, BufExtent, BufBatch, InodeBuf}
use place.Buffers.{swap_buf, invalidate_buf, clip, clip_extents, clip_freed}
use place.Index.Staging.{along}
use place.Fsync.{
  Channels, Fsync, waiting, outcome_of, begin, settle, truncated, Step, write, swap, flush,
  truncate, forget, serve, wake, finish, give_up_firing, give_up_waiting,
}

-- The bytes of the extents, which a batch counts.
unfoldable pub total_bytes : List BufExtent → ℕ
total_bytes [] = 0
total_bytes (ext ∷ exts) = length ext.bytes + total_bytes exts

clip_extents-zero : (exts : List BufExtent) → clip_extents 0 exts ≡ []
unfolding clip_extents
clip_extents-zero [] = refl
clip_extents-zero (ext ∷ exts) = ground (arith, clip_extents-zero exts)

clip_freed-zero : (exts : List BufExtent) → clip_freed 0 exts ≡ total_bytes exts
unfolding clip_freed total_bytes
clip_freed-zero [] = refl
clip_freed-zero (ext ∷ exts) = ground (arith, clip_freed-zero exts)

-- Nothing is flushing, and the current batch has no extent and counts no byte.
pub record IsEmptied (c : Channels) (w : ℕ) : Type 0 where
  pub batch : BufBatch
  pub current : c.buf.current ≡ some batch
  pub extents : batch.extents ≡ []
  pub count : batch.bytes ≡ pos 0
  pub quiet : c.buf.flushing ≡ none
  pub same : c.current_done ≡ w
  pub still_open : outcome_of c.settled w ≡ none

-- A step that is no write, no Drop and no cancellation.
abbrev pub Quiet : {c d : Channels} {f g : Fsync} → Step c f d g → Type 0
Quiet (write stripe_size gen now off written buf' gen' f e) = ⊥
Quiet (swap f) = Unit {0}
Quiet (flush end mtime e f) = Unit {0}
Quiet (truncate size f) = Unit {0}
Quiet (forget f) = ⊥
Quiet (serve ws) = Unit {0}
Quiet (wake w ws o shut) = Unit {0}
Quiet finish = Unit {0}
Quiet (give_up_firing ws) = ⊥
Quiet (give_up_waiting ws) = ⊥

pub data QuietReach (c : Channels) (f : Fsync) : Channels → Fsync → Type 0 where
  here : QuietReach c f c f
  later :
      {d d' : Channels} {g g' : Fsync}
      → QuietReach c f d g
      → (st : Step d g d' g') → Quiet st
      → QuietReach c f d' g'

swap_buf-emptied :
    (buf : InodeBuf) (b : BufBatch) → buf.current ≡ some b → b.bytes ≡ pos 0 → swap_buf buf ≡ none
unfolding swap_buf
swap_buf-emptied buf b there nil = elim (Option-cases buf.flushing) [
  | inl idle ↦ ground (arith, idle, there, nil)
  | inr (f, running) ↦ ground (arith, running)
]

begin-emptied : (c : Channels) (w : ℕ) → IsEmptied c w → begin c ≡ c
unfolding begin
begin-emptied c w z = rw (swap_buf-emptied c.buf z.batch z.current z.count, begin) refl

settle-emptied :
    (c : Channels) (w end mtime : ℕ) (e : Option Error) → IsEmptied c w → settle c end mtime e ≡ c
unfolding settle
settle-emptied c w end mtime e z = ground (arith, z.quiet)

pos-minus : (n : ℕ) → pos n -ℤ pos n ≡ pos 0
unfolding ◌-ℤ◌
pos-minus n = ground arith

-- The batch that clip leaves, and what it frees.
clip_lem :
    (size : ℕ) (o : Option BufBatch) (b : BufBatch)
    → o ≡ some b
    → (b' : BufBatch) × ((clip size o 0).0 ≡ some b')
      × (b'.extents ≡ clip_extents size b.extents)
      × (b'.bytes ≡ b.bytes -ℤ pos (clip_freed size b.extents))
unfolding clip
clip_lem size none b e = absurd (ground arith)
clip_lem size (some a) b e =
    let same : a ≡ b = ground arith in
    rw (← same) (_, refl, refl, ap (λ n. a.bytes -ℤ pos n) (omega arith))

clip-none : (size freed : ℕ) (o : Option BufBatch) → o ≡ none → (clip size o freed).0 ≡ none
unfolding clip
clip-none size freed none e = refl
clip-none size freed (some f) e = absurd (ground arith)

-- A truncation of a buffer where nothing is flushing.
truncated_lem :
    (c : Channels) (size : ℕ) (b : BufBatch)
    → c.buf.current ≡ some b
    → c.buf.flushing ≡ none
    → (b' : BufBatch) × ((truncated c size).buf.current ≡ some b')
      × (b'.extents ≡ clip_extents size b.extents)
      × (b'.bytes ≡ b.bytes -ℤ pos (clip_freed size b.extents))
      × ((truncated c size).buf.flushing ≡ none)
unfolding truncated invalidate_buf
truncated_lem c size b there quiet =
    let (b', current, extents, bytes) = clip_lem size c.buf.current b there in
    (b', current, extents, bytes, clip-none size _ c.buf.flushing quiet)

truncated-same :
    (c : Channels) (size : ℕ)
    → ((truncated c size).current_done ≡ c.current_done) × ((truncated c size).settled ≡ c.settled)
unfolding truncated
truncated-same c size = (refl, refl)

truncated-IsEmptied : (c : Channels) (w size : ℕ) → IsEmptied c w → IsEmptied (truncated c size) w
unfolding clip_extents clip_freed
truncated-IsEmptied c w size z =
    let (b', current, extents, bytes, quiet) = truncated_lem c size z.batch z.current z.quiet in
    record {
      batch = b';
      current = current;
      extents = extents ∙ rw z.extents refl;
      count = bytes ∙ rw (z.count, z.extents) (pos-minus 0);
      quiet = quiet;
      same = (truncated-same c size).0 ∙ z.same;
      still_open = ap (λ l. outcome_of l w) (truncated-same c size).1 ∙ z.still_open;
    }

-- The call waits for the emptied batch.
abbrev IsStuck : ℕ → Channels → Fsync → Type 0
IsStuck w c f = IsEmptied c w × (f ≡ waiting (w ∷ []))

Step-IsStuck :
    (w : ℕ) {c d : Channels} {f g : Fsync} (st : Step c f d g)
    → Quiet st
    → IsStuck w c f
    → IsStuck w d g
Step-IsStuck w {c} (write stripe_size gen now off written buf' gen' f e) q h = absurd q
Step-IsStuck w {c} (swap f) q (z, at) =
    (along (λ x. IsEmptied x w) (sym (begin-emptied c w z)) z, at)
Step-IsStuck w {c} (flush end mtime e f) q (z, at) =
    (along (λ x. IsEmptied x w) (sym (settle-emptied c w end mtime e z)) z, at)
Step-IsStuck w {c} (truncate size f) q (z, at) = (truncated-IsEmptied c w size z, at)
Step-IsStuck w {c} (forget f) q h = absurd q
Step-IsStuck w {c} (serve ws) q (z, at) = absurd (ground arith)
Step-IsStuck w {c} (wake v ws o shut) q (z, at) =
    let same : v ≡ w = ground arith in
    absurd (ground (arith, sym z.still_open ∙ ap (outcome_of c.settled) (sym same) ∙ shut))
Step-IsStuck w {c} finish q (z, at) = absurd (ground arith)
Step-IsStuck w {c} (give_up_firing ws) q h = absurd q
Step-IsStuck w {c} (give_up_waiting ws) q h = absurd q

-- Fsync that waits for a batch which a truncation to 0 empties before it is swapped does not return by
-- flushes, ticks or further truncations: without a write, a Drop of the inode or a cancellation it
-- waits in every state that is reached. The batch counted the bytes of its extents, no flush was
-- running, and its channel was open.
pub fsync-waits :
    (c : Channels) {d : Channels} {g : Fsync} (b : BufBatch)
    → c.buf.current ≡ some b
    → b.bytes ≡ pos (total_bytes b.extents)
    → c.buf.flushing ≡ none
    → outcome_of c.settled c.current_done ≡ none
    → QuietReach (truncated c 0) (waiting (c.current_done ∷ [])) d g
    → g ≡ waiting (c.current_done ∷ [])
fsync-waits c b there counted quiet still_open r = (reached (emptied, refl) r).1
  where
    emptied : IsEmptied (truncated c 0) c.current_done
    emptied =
        let (b', current, extents, bytes, quiet') = truncated_lem c 0 b there quiet in
        record {
          batch = b';
          current = current;
          extents = extents ∙ clip_extents-zero b.extents;
          count = bytes ∙ rw (counted, clip_freed-zero) (pos-minus (total_bytes b.extents));
          quiet = quiet';
          same = (truncated-same c 0).0;
          still_open = ap (λ l. outcome_of l c.current_done) (truncated-same c 0).1 ∙ still_open;
        }

    reached :
        {x : Channels} {f : Fsync} {y : Channels} {h : Fsync}
        → IsStuck c.current_done x f
        → QuietReach x f y h
        → IsStuck c.current_done y h
    reached z here = z
    reached z (later s st q) = Step-IsStuck c.current_done st q (reached z s)
