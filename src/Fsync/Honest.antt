-- ===== src/Fsync/Honest.antt =====
-- What Fsync's result says: where it is no error, all that was buffered has been settled.
use place.Common.{
  if◌then◌else◌, true, ℕ, ◌≡◌, refl, sym, ap, ◌∙◌, List, [], ◌∷◌, ◌++◌, Option, none, some, arith,
  ◌==◌, All, All-map, All-append, Option-cases, Bool-cases, inl, inr, ◌⊎◌, ==_iff,
}
use place.Coalescer.{Error, BufBatch, InodeBuf}
use place.Buffers.{swap_buf, is_positive, bytes_of}
use place.Index.Staging.{along}
use place.Fsync.{
  Outcome, flushed, dropped, failed, Channels, Fsync, firing, waiting, returned, outcome_of, waits,
  waits_flushing, snapshot, need_trigger, wrote, begin, settle, drop, truncated, outcome, Step,
  write, swap, flush, truncate, forget, serve, wake, finish, give_up_firing, give_up_waiting, Reach,
  start, next,
}
use place.Fsync.Valid.{IsValid, Step-IsValid}
use mathlib.Core.List.{append_assoc, append-nil}

-- What is closed stays closed, with the same outcome.
abbrev Keeps : Channels → Channels → Type 0
Keeps c d =
    (w : ℕ) (o : Outcome) → outcome_of c.settled w ≡ some o → outcome_of d.settled w ≡ some o

one_more :
    (c : Channels) (v : ℕ) (x : Outcome)
    → outcome_of c.settled v ≡ none
    → (w : ℕ) (o : Outcome) → outcome_of c.settled w ≡ some o
    → outcome_of ((v, x) ∷ c.settled) w ≡ some o
unfolding outcome_of
one_more c v x still_open w o h = elim (Bool-cases (v == w)) [
  | inr other ↦ rw (other, outcome_of) h
  | inl same ↦
      let at : outcome_of c.settled w ≡ none =
        ap (outcome_of c.settled) (sym ((==_iff v w).0 same)) ∙ still_open in
      absurd (ground (arith, sym at ∙ h))
]

wrote-Keeps : (c : Channels) (buf' : InodeBuf) → Keeps c (wrote c buf')
unfolding wrote
wrote-Keeps c buf' w o h = elim (Option-cases c.buf.current) [
  | inl nothing ↦ rw (nothing, wrote) h
  | inr (b, there) ↦ rw (there, wrote) h
]

begin-Keeps : (c : Channels) → Keeps c (begin c)
unfolding begin
begin-Keeps c w o h = elim (Option-cases (swap_buf c.buf)) [
  | inl bails ↦ rw (bails, begin) h
  | inr ((b, buf'), swaps) ↦ rw (swaps, begin) h
]

settle-Keeps :
    (c : Channels) (end mtime : ℕ) (e : Option Error) → IsValid c → Keeps c (settle c end mtime e)
unfolding settle
settle-Keeps c end mtime e v w o h = elim (Option-cases c.buf.flushing) [
  | inl quiet ↦ rw (quiet, settle) h
  | inr (f, running) ↦
      rw (running, settle)
        (one_more c c.flushing_done (outcome e) (v.flushing_open f running).1 w o h)
]

drop-Keeps : (c : Channels) → IsValid c → Keeps c (drop c)
unfolding drop
drop-Keeps c v w o h = elim (Option-cases c.buf.current) [
  | inl nothing ↦ rw (nothing, drop) h
  | inr (b, there) ↦
      rw (there, drop) (one_more c c.current_done dropped (v.current_open b there).1 w o h)
]

truncated-Keeps : (c : Channels) (size : ℕ) → Keeps c (truncated c size)
unfolding truncated
truncated-Keeps c size w o h = h

Step-Keeps : {c d : Channels} {f g : Fsync} → Step c f d g → IsValid c → Keeps c d
Step-Keeps {c} (write stripe_size gen now off written buf' gen' f e) v = wrote-Keeps c buf'
Step-Keeps {c} (swap f) v = begin-Keeps c
Step-Keeps {c} (flush end mtime e f) v = settle-Keeps c end mtime e v
Step-Keeps {c} (truncate size f) v = truncated-Keeps c size
Step-Keeps {c} (forget f) v = drop-Keeps c v
Step-Keeps {c} (serve ws) v = begin-Keeps c
Step-Keeps (wake w ws o shut) v = λ w o h. h
Step-Keeps finish v = λ w o h. h
Step-Keeps (give_up_firing ws) v = λ w o h. h
Step-Keeps (give_up_waiting ws) v = λ w o h. h

abbrev Closed : Channels → ℕ → Type 0
Closed c w = (o : Outcome) × (outcome_of c.settled w ≡ some o)

-- The batch was committed by a flush that succeeded, or its inode was dropped.
abbrev pub Settled : Channels → ℕ → Type 0
Settled c w = (outcome_of c.settled w ≡ some flushed) ⊎ (outcome_of c.settled w ≡ some dropped)

-- What the call owes of the channels that it took down.
abbrev Owes : List ℕ → Channels → Fsync → Type 0
Owes all c (firing ws) = ws ≡ all
Owes all c (waiting ws) = (past : List ℕ) × (past ++ ws ≡ all) × All (Closed c) past
Owes all c (returned none) = All (Settled c) all
Owes all c (returned (some e)) = Unit {0}

Keeps-Closed : (c d : Channels) → Keeps c d → (ws : List ℕ) → All (Closed c) ws → All (Closed d) ws
Keeps-Closed c d k ws h = All-map ws (λ w shut. (shut.0, k w shut.0 shut.1)) h

Keeps-Settled :
    (c d : Channels) → Keeps c d → (ws : List ℕ) → All (Settled c) ws → All (Settled d) ws
Keeps-Settled c d k ws h =
    All-map ws
      (λ w shut. elim shut [
        | inl went ↦ inl (k w flushed went)
        | inr gone ↦ inr (k w dropped gone)
      ])
      h

Keeps-Owes : (all : List ℕ) (c d : Channels) (f : Fsync) → Keeps c d → Owes all c f → Owes all d f
Keeps-Owes all c d (firing ws) k h = h
Keeps-Owes all c d (waiting ws) k (past, same, shut) = (past, same, Keeps-Closed c d k past shut)
Keeps-Owes all c d (returned none) k h = Keeps-Settled c d k all h
Keeps-Owes all c d (returned (some e)) k h = h

Closed-Settled :
    (c : Channels) → IsValid c → c.buf.poisoned ≡ none → (w : ℕ) → Closed c w → Settled c w
Closed-Settled c v clean w (flushed, h) = inl h
Closed-Settled c v clean w (dropped, h) = inr h
Closed-Settled c v clean w (failed e, h) = absurd (v.honest clean w e h)

finish-Owes :
    (all : List ℕ) (c : Channels)
    → IsValid c
    → Owes all c (waiting [])
    → Owes all c (returned c.buf.poisoned)
finish-Owes all c v (past, same, shut) = elim (Option-cases c.buf.poisoned) [
  | inr (e, poisoned) ↦ along (λ r. Owes all c (returned r)) (sym poisoned) tt
  | inl clean ↦
      along (λ r. Owes all c (returned r)) (sym clean)
        (All-map all (Closed-Settled c v clean)
          (along (λ l. All (Closed c) l) (sym (append-nil past) ∙ same) shut))
]

wake-Owes :
    (all : List ℕ) (c : Channels) (w : ℕ) (ws : List ℕ) (o : Outcome)
    → outcome_of c.settled w ≡ some o
    → Owes all c (waiting (w ∷ ws))
    → Owes all c (waiting ws)
wake-Owes all c w ws o h (past, same, shut) = (
  past ++ w ∷ [],
  append_assoc past (w ∷ []) ws ∙ same,
  All-append (Closed c) past (w ∷ []) shut ((o, h), tt),
)

Step-Owes :
    (all : List ℕ) {c d : Channels} {f g : Fsync}
    → Step c f d g
    → IsValid c
    → Owes all c f
    → Owes all d g
Step-Owes all {c} (write stripe_size gen now off written buf' gen' f e) v h =
    Keeps-Owes all c (wrote c buf') f (wrote-Keeps c buf') h
Step-Owes all {c} (swap f) v h = Keeps-Owes all c (begin c) f (begin-Keeps c) h
Step-Owes all {c} (flush end mtime e f) v h =
    Keeps-Owes all c (settle c end mtime e) f (settle-Keeps c end mtime e v) h
Step-Owes all {c} (truncate size f) v h =
    Keeps-Owes all c (truncated c size) f (truncated-Keeps c size) h
Step-Owes all {c} (forget f) v h = Keeps-Owes all c (drop c) f (drop-Keeps c v) h
Step-Owes all (serve ws) v h = ([], h, tt)
Step-Owes all {c} (wake w ws o shut) v h = wake-Owes all c w ws o shut h
Step-Owes all {c} finish v h = finish-Owes all c v h
Step-Owes all (give_up_firing ws) v h = tt
Step-Owes all (give_up_waiting ws) v h = tt

pub Reach-IsValid :
    {c : Channels} {f : Fsync} {d : Channels} {g : Fsync} → Reach c f d g → IsValid c → IsValid d
Reach-IsValid start v = v
Reach-IsValid (next r st) v = Step-IsValid st (Reach-IsValid r v)

Reach-Owes :
    (all : List ℕ) {c : Channels} {f : Fsync} {d : Channels} {g : Fsync}
    → Reach c f d g
    → IsValid c
    → Owes all c f
    → Owes all d g
Reach-Owes all start v h = h
Reach-Owes all (next r st) v h = Step-Owes all st (Reach-IsValid r v) (Reach-Owes all r v h)

snapshot-Owes : (c : Channels) → Owes (waits c) c (snapshot c)
unfolding snapshot
snapshot-Owes c = elim (Option-cases c.buf.poisoned) [
  | inr (e, poisoned) ↦ rw (poisoned, snapshot) tt
  | inl clean ↦ elim (Bool-cases (need_trigger c.buf)) [
    | inl due ↦ rw (clean, snapshot, due) refl
    | inr idle ↦ rw (clean, snapshot, idle) ([], refl, tt)
  ]
]

All-right : (P : ℕ → Type 0) (xs ys : List ℕ) → All P (xs ++ ys) → All P ys
All-right P [] ys h = h
All-right P (x ∷ xs) ys h = All-right P xs ys h.1

-- What is settled of all the waits is settled of the batch that was flushing, and of the current one.
waits-flushing :
    (c : Channels) (P : ℕ → Type 0) (f : BufBatch)
    → c.buf.flushing ≡ some f
    → All P (waits c)
    → P c.flushing_done
unfolding waits
waits-flushing c P f running h =
    let h' : All P (
        waits_flushing (some f) c.flushing_done
        ++ (if need_trigger c.buf then c.current_done ∷ [] else [])) =
      along
        (λ o. All P (
          waits_flushing o c.flushing_done
          ++ (if need_trigger c.buf then c.current_done ∷ [] else [])))
        running h in
    h'.0

waits-current :
    (c : Channels) (P : ℕ → Type 0) (b : BufBatch)
    → c.buf.current ≡ some b
    → is_positive b.bytes ≡ true
    → All P (waits c)
    → P c.current_done
unfolding waits
waits-current c P b there counts h =
    let due : need_trigger c.buf ≡ true = ap (λ o. is_positive (bytes_of o)) there ∙ counts in
    let h' : All P (if need_trigger c.buf then c.current_done ∷ [] else []) =
      All-right P (waits_flushing c.buf.flushing c.flushing_done) _ h in
    (along (λ t. All P (if t then c.current_done ∷ [] else [])) due h').0

-- Fsync that returns no error has every batch settled that was in the buffer when it took the buffer's
-- lock, the one that was flushing and the current one if it counted bytes: each was committed by a
-- flush that succeeded, or dropped with its inode. In between writes, truncations, flushes, Drop and
-- cancellation may come in any order, and the buffer's channels are valid at the start.
pub fsync-Settled :
    {c d : Channels}
    → IsValid c
    → Reach c (snapshot c) d (returned none)
    → ((f : BufBatch) → c.buf.flushing ≡ some f → Settled d c.flushing_done)
      × ((b : BufBatch)
          → c.buf.current ≡ some b
          → is_positive b.bytes ≡ true
          → Settled d c.current_done)
fsync-Settled {c} {d} v r =
    let all : All (Settled d) (waits c) = Reach-Owes (waits c) r v (snapshot-Owes c) in
    (
      λ f running. waits-flushing c (Settled d) f running all,
      λ b there counts. waits-current c (Settled d) b there counts all,
    )
