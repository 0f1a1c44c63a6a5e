-- ===== src/Fsync/Valid.antt =====
-- The channels of the batches in the buffer are open, and an error stays with the buffer.
use place.Common.{
  ℕ, ◌≤◌, ◌<◌, ◌≡◌, refl, sym, ◌∙◌, false, List, [], ◌∷◌, Option, none, some, arith, ◌==◌, length,
  Option-cases, Bool-cases, inl, inr,
}
use place.Coalescer.{Error, ok, BufBatch, InodeBuf, buffer_write, write_loop, or_new, new_inode_buf}
use place.Buffers.{swap_buf, settle_buf, invalidate_buf, clip}
use place.Buffers.Account.{swap_buf_inv}
use place.Fsync.{
  Outcome, flushed, dropped, failed, Channels, Fsync, outcome_of, wrote, begin, settle, drop,
  truncated, outcome, Step, write, swap, flush, truncate, forget, serve, wake, finish,
  give_up_firing, give_up_waiting,
}

-- The channel was made, and is not closed.
abbrev pub IsOpen : Channels → ℕ → Type 0
IsOpen c w = (w < c.made) × (outcome_of c.settled w ≡ none)

pub record IsValid (c : Channels) : Type 0 where
  pub current_open : (b : BufBatch) → c.buf.current ≡ some b → IsOpen c c.current_done
  pub flushing_open : (f : BufBatch) → c.buf.flushing ≡ some f → IsOpen c c.flushing_done
  pub apart :
      (b f : BufBatch)
      → c.buf.current ≡ some b
      → c.buf.flushing ≡ some f
      → (c.current_done == c.flushing_done) ≡ false
  pub unmade : (w : ℕ) → c.made ≤ w → outcome_of c.settled w ≡ none
  pub honest :
      c.buf.poisoned ≡ none → (w : ℕ) (e : Error) → outcome_of c.settled w ≡ some (failed e) → ⊥

-- A buffer that Write has just made.
abbrev pub fresh : ℕ → Channels
fresh tier = record {
  buf = new_inode_buf tier;
  current_done = 0;
  flushing_done = 0;
  made = 1;
  settled = [];
}

pub fresh-IsValid : (tier : ℕ) → IsValid (fresh tier)
unfolding outcome_of
fresh-IsValid tier = record {
  current_open = λ b e. absurd (ground arith);
  flushing_open = λ b e. absurd (ground arith);
  apart = λ b f e e'. absurd (ground arith);
  unmade = λ w h. refl;
  honest = λ clean w e h. absurd (ground arith);
}

-- A write that went in found no error, and left the batch that is flushing as it was.
buffer_write_inv :
    (stripe_size gen now : ℕ) (buf buf' : InodeBuf) (off : ℕ) (written : List ℕ) (gen' : ℕ)
    → buffer_write stripe_size gen now buf off written ≡ some (ok (buf', gen'))
    → (buf'.flushing ≡ buf.flushing) × (buf.poisoned ≡ none) × (buf'.poisoned ≡ none)
unfolding buffer_write
buffer_write_inv stripe_size gen now buf buf' off written gen' e =
    elim (Option-cases buf.poisoned) [
      | inr (p, poisoned) ↦ absurd (ground (arith, poisoned))
      | inl clean ↦
          elim (Option-cases
            (write_loop (length written) stripe_size gen (or_new buf.current) off written)) [
              | inl short ↦ absurd (ground (arith, clean, short))
              | inr ((b, g), loop) ↦
                  (ground (arith, clean, loop), clean, ground (arith, clean, loop))
            ]
    ]

-- The same channels, over a buffer that has no batch more and the same error.
same_channels :
    (c : Channels) (buf' : InodeBuf)
    → IsValid c
    → ((b : BufBatch) → buf'.current ≡ some b → (b' : BufBatch) × (c.buf.current ≡ some b'))
    → ((f : BufBatch) → buf'.flushing ≡ some f → (f' : BufBatch) × (c.buf.flushing ≡ some f'))
    → buf'.poisoned ≡ c.buf.poisoned
    → IsValid (record c { buf = buf' })
same_channels c buf' v current flushing poisoned = record {
  current_open = λ b e. v.current_open (current b e).0 (current b e).1;
  flushing_open = λ f e. v.flushing_open (flushing f e).0 (flushing f e).1;
  apart = λ b f e e'. v.apart (current b e).0 (flushing f e').0 (current b e).1 (flushing f e').1;
  unmade = v.unmade;
  honest = λ clean. v.honest (sym poisoned ∙ clean);
}

wrote-IsValid :
    (c : Channels) (stripe_size gen now off : ℕ) (written : List ℕ) (buf' : InodeBuf) (gen' : ℕ)
    → buffer_write stripe_size gen now c.buf off written ≡ some (ok (buf', gen'))
    → IsValid c
    → IsValid (wrote c buf')
unfolding wrote
wrote-IsValid c stripe_size gen now off written buf' gen' e v =
    let (flushing, clean, clean') =
      buffer_write_inv stripe_size gen now c.buf buf' off written gen' e in
    elim (Option-cases c.buf.current) [
      | inr (b, there) ↦
          rw (there, wrote)
            (same_channels c buf' v (λ b' e'. (b, there)) (λ f e'. (f, sym flushing ∙ e'))
              (clean' ∙ sym clean))
      | inl nothing ↦
          rw (nothing, wrote)
            (record {
              current_open = λ b e'. (omega arith, v.unmade c.made (omega arith));
              flushing_open = λ f e'.
                  let (small, open_still) = v.flushing_open f (sym flushing ∙ e') in
                  (omega (arith, small), open_still);
              apart = λ b f e1 e2.
                  let (small, open_still) = v.flushing_open f (sym flushing ∙ e2) in
                  ground (arith, small);
              unmade = λ w h. v.unmade w (omega (arith, h));
              honest = λ k. v.honest clean;
            })
    ]

begin-IsValid : (c : Channels) → IsValid c → IsValid (begin c)
unfolding begin
begin-IsValid c v = elim (Option-cases (swap_buf c.buf)) [
  | inl bails ↦ rw (bails, begin) v
  | inr ((b, buf'), swaps) ↦
      let (quiet, due, same) = swap_buf_inv c.buf b buf' swaps in
      let (small, open_still) = v.current_open b due in
      rw (swaps, begin, same)
        (record {
          current_open = λ b' e. (omega arith, v.unmade c.made (omega arith));
          flushing_open = λ f e. (omega (arith, small), open_still);
          apart = λ b' f e e'. ground (arith, small);
          unmade = λ w h. v.unmade w (omega (arith, h));
          honest = v.honest;
        })
]

-- One channel more is closed, of neither batch that stays in the buffer.
closed :
    (c : Channels) (w : ℕ) (o : Outcome) (v : ℕ)
    → outcome_of c.settled v ≡ none
    → (w == v) ≡ false
    → outcome_of ((w, o) ∷ c.settled) v ≡ none
unfolding outcome_of
closed c w o v h apart = rw (apart, outcome_of) h

-- What failed is not among the channels, if it was not and the new one did not fail.
still_honest :
    (c : Channels) (w : ℕ) (o : Outcome) (v : ℕ) (e : Error)
    → ((x : Error) → o ≡ failed x → ⊥)
    → (outcome_of c.settled v ≡ some (failed e) → ⊥)
    → outcome_of ((w, o) ∷ c.settled) v ≡ some (failed e)
    → ⊥
unfolding outcome_of
still_honest c w o v e fine old h = elim (Bool-cases (w == v)) [
  | inl same ↦ fine e (ground (arith, same))
  | inr other ↦ old (ground (arith, other))
]

settled-IsValid :
    (c : Channels) (end mtime : ℕ) (e : Option Error) (f : BufBatch)
    → c.buf.flushing ≡ some f
    → IsValid c
    → IsValid (record c {
      buf = settle_buf c.buf end mtime e;
      settled = (c.flushing_done, outcome e) ∷ c.settled;
    })
unfolding settle_buf
settled-IsValid c end mtime none f running v =
    let (small, open_still) = v.flushing_open f running in
    record {
      current_open = λ b there.
          let (small', open') = v.current_open b there in
          (
            small',
            closed c c.flushing_done flushed c.current_done open'
                (ground (arith, v.apart b f there running)),
          );
      flushing_open = λ f' there. absurd (ground arith);
      apart = λ b f' e e'. absurd (ground arith);
      unmade = λ w h. closed c c.flushing_done flushed w (v.unmade w h) (ground (arith, small, h));
      honest = λ clean w e.
          still_honest c c.flushing_done flushed w e (λ x same. absurd (ground arith))
            (v.honest clean w e);
    }
settled-IsValid c end mtime (some x) f running v =
    let (small, open_still) = v.flushing_open f running in
    record {
      current_open = λ b there.
          let (small', open') = v.current_open b there in
          (
            small',
            closed c c.flushing_done (failed x) c.current_done open'
                (ground (arith, v.apart b f there running)),
          );
      flushing_open = λ f' there. absurd (ground arith);
      apart = λ b f' e e'. absurd (ground arith);
      unmade =
          λ w h. closed c c.flushing_done (failed x) w (v.unmade w h) (ground (arith, small, h));
      honest = λ clean. absurd (ground arith);
    }

settle-IsValid :
    (c : Channels) (end mtime : ℕ) (e : Option Error) → IsValid c → IsValid (settle c end mtime e)
unfolding settle
settle-IsValid c end mtime e v = elim (Option-cases c.buf.flushing) [
  | inl quiet ↦ rw (quiet, settle) v
  | inr (f, running) ↦ rw (running, settle) (settled-IsValid c end mtime e f running v)
]

drop-IsValid : (c : Channels) → IsValid c → IsValid (drop c)
unfolding drop
drop-IsValid c v = elim (Option-cases c.buf.current) [
  | inl nothing ↦
      rw (nothing, drop) (same_channels c _ v (λ b e. absurd (ground arith)) (λ f e. (f, e)) refl)
  | inr (b, there) ↦
      let (small, open_still) = v.current_open b there in
      rw (there, drop)
        (record {
          current_open = λ b' e. absurd (ground arith);
          flushing_open = λ f e.
              let (small', open') = v.flushing_open f e in
              (small', closed c c.current_done dropped c.flushing_done open' (v.apart b f there e));
          apart = λ b' f e e'. absurd (ground arith);
          unmade =
              λ w h. closed c c.current_done dropped w (v.unmade w h) (ground (arith, small, h));
          honest = λ clean w e.
              still_honest c c.current_done dropped w e (λ x same. absurd (ground arith))
                (v.honest clean w e);
        })
]

truncated-IsValid : (c : Channels) (size : ℕ) → IsValid c → IsValid (truncated c size)
unfolding truncated invalidate_buf clip
truncated-IsValid c size v =
    same_channels c _ v
      (λ b e. elim (Option-cases c.buf.current) [
        | inl nothing ↦ absurd (ground (arith, nothing))
        | inr found ↦ found
      ])
      (λ f e. elim (Option-cases c.buf.flushing) [
        | inl nothing ↦ absurd (ground (arith, nothing))
        | inr found ↦ found
      ])
      refl

-- No step of the buffer or of Fsync closes a channel twice, reuses one, or forgets an error: the
-- channels of the batches in the buffer stay open and apart, and a buffer without an error has no
-- batch that failed.
pub Step-IsValid : {c d : Channels} {f g : Fsync} → Step c f d g → IsValid c → IsValid d
Step-IsValid {c} (write stripe_size gen now off written buf' gen' f e) v =
    wrote-IsValid c stripe_size gen now off written buf' gen' e v
Step-IsValid {c} (swap f) v = begin-IsValid c v
Step-IsValid {c} (flush end mtime e f) v = settle-IsValid c end mtime e v
Step-IsValid {c} (truncate size f) v = truncated-IsValid c size v
Step-IsValid {c} (forget f) v = drop-IsValid c v
Step-IsValid {c} (serve ws) v = begin-IsValid c v
Step-IsValid (wake w ws o closed_) v = v
Step-IsValid finish v = v
Step-IsValid (give_up_firing ws) v = v
Step-IsValid (give_up_waiting ws) v = v
