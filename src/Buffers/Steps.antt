-- ===== src/Buffers/Steps.antt =====
-- The steps that change the buffers, and what the code holds of the semaphore after them.
use place.Common.{
  ℕ, ◌<◌, ◌≡◌, refl, sym, ap, ◌∙◌, false, List, [], ◌∷◌, Option, none, some, arith, ltb,
  if◌then◌else◌, length, Bool-cases, Option-cases, inl, inr, ◌⊎◌,
}
use place.Common.Int.{ℤ, pos, ◌+ℤ◌, ◌-ℤ◌, int_laws, parts_of_eq, level}
use place.Coalescer.{Error, Result, ok, err, BufBatch, InodeBuf, buffer_write}
use place.Buffers.{
  Coalescer, get_buf, set_buf, delete_buf, buf_or_new, write, invalidate_past_size, begin_flush,
  settle_flush, drop_buf, invalidate_buf, clip, clip_freed, is_positive, bytes_of,
}
use place.Buffers.Account.{
  counted_by, counted_in, Accounts, counted_of, counted_in-set_buf, counted_in-delete_buf,
  counted_or_new, counted_in-set_buf_same, counted_by-buffer_write, replaced, begin_flush-Accounts,
  settle_flush-Accounts,
}

-- One write's outcome.
write_inv :
    (c c' : Coalescer) (inode off x : ℕ) (xs : List ℕ) (tier now : ℕ) (r : Result (Unit {0}))
    → write c inode off (x ∷ xs) tier now ≡ some (c', r)
    → (c' ≡ c)
      ⊎ (c' ≡ record c {
        buffers = set_buf c.buffers inode (buf_or_new (get_buf c.buffers inode) tier);
      })
      ⊎ ((buf' : InodeBuf) × (gen : ℕ) × (buffer_write c.stripe_size c.seq_gen now
              (buf_or_new (get_buf c.buffers inode) tier)
              off
              (x ∷ xs)
            ≡ some (ok (buf', gen)))
          × (c' ≡ record c {
            seq_gen = gen;
            held = c.held +ℤ pos (length (x ∷ xs));
            buffers = set_buf c.buffers inode buf';
          }))
unfolding write
write_inv c c' inode off x xs tier now r e = elim (Bool-cases c.closing) [
  | inl closed ↦ inl (ground (arith, closed))
  | inr opened ↦
      elim (Option-cases (
        buffer_write c.stripe_size c.seq_gen now (buf_or_new (get_buf c.buffers inode) tier) off
          (x ∷ xs))) [
            | inl short ↦ absurd (ground (arith, opened, short))
            | inr (err p, poisoned) ↦ inr (inl (ground (arith, opened, poisoned)))
            | inr (ok (buf', gen), wrote) ↦
                inr (inr (buf', gen, wrote, ground (arith, opened, wrote)))
          ]
]

write-Accounts :
    (c c' : Coalescer) (inode off : ℕ) (written : List ℕ) (tier now : ℕ) (r : Result (Unit {0}))
    → 0 < c.stripe_size
    → Accounts c
    → write c inode off written tier now ≡ some (c', r)
    → Accounts c'
unfolding write
write-Accounts c c' inode off [] tier now r s a e = let same : c' ≡ c = ground arith in rw same a
write-Accounts c c' inode off (x ∷ xs) tier now r s a e =
    elim (write_inv c c' inode off x xs tier now r e) [
      | inl same ↦ rw same a
      | inr (inl same) ↦ rw same (
          a
          ∙ sym (
              counted_in-set_buf_same c.buffers inode _
                (counted_or_new (get_buf c.buffers inode) tier)))
      | inr (inr (buf', gen, wrote, same)) ↦ rw same (
          level c.held (counted_in c.buffers) (counted_of (get_buf c.buffers inode))
            (counted_by buf') (counted_in (set_buf c.buffers inode buf')) (pos (length (x ∷ xs))) a
            (counted_in-set_buf c.buffers inode buf')
            (counted_by-buffer_write c.stripe_size c.seq_gen now _ buf' off (x ∷ xs) gen s wrote
              ∙ ap (◌+ℤ pos (length (x ∷ xs))) (counted_or_new (get_buf c.buffers inode) tier)))
    ]

drop_held :
    (held : ℤ) (n : ℕ) → (if is_positive (pos n) then held -ℤ pos n else held) ≡ held -ℤ pos n
drop_held held n = elim (Bool-cases (ltb 0 n)) [
  | inl some_held ↦ rw some_held refl
  | inr nothing ↦ rw nothing (omega (int_laws, nothing_held n nothing))
]
  where
    nothing_held : (n : ℕ) → ltb 0 n ≡ false → n ≡ 0
    nothing_held n e = ground arith

drop_buf-Accounts :
    (c : Coalescer) (inode n : ℕ) (buf : InodeBuf)
    → Accounts c
    → get_buf c.buffers inode ≡ some buf
    → bytes_of buf.current ≡ pos n
    → buf.flushing ≡ none
    → Accounts (drop_buf c inode)
unfolding drop_buf
drop_buf-Accounts c inode n buf a found counted idle =
    rw (found, drop_buf)
      (rw counted (drop_held c.held n ∙ omega (int_laws, parts_of_eq _ _ a, parts_of_eq _ _ left)))
  where
    left : counted_in (delete_buf c.buffers inode) +ℤ pos n ≡ counted_in c.buffers
    left =
        ap (counted_in (delete_buf c.buffers inode) +ℤ◌)
          (sym (ap counted_of found ∙ rw (counted, idle) (omega int_laws)))
        ∙ counted_in-delete_buf c.buffers inode

clip_counted :
    (size : ℕ) (b : Option BufBatch)
    → bytes_of (clip size b 0).0 +ℤ pos (clip size b 0).1 ≡ bytes_of b
unfolding clip
clip_counted size none = omega int_laws
clip_counted size (some b) = omega int_laws

nothing_more : (x f y : ℤ) → x +ℤ f ≡ y → x +ℤ pos 0 +ℤ f ≡ y +ℤ pos 0
nothing_more x f y e = omega (int_laws, parts_of_eq (x +ℤ f) y e)

invalidate_past_size-Accounts :
    (c : Coalescer) (inode size : ℕ) (buf : InodeBuf)
    → Accounts c
    → get_buf c.buffers inode ≡ some buf
    → buf.flushing ≡ none
    → Accounts (invalidate_past_size c inode size)
unfolding invalidate_past_size invalidate_buf clip
invalidate_past_size-Accounts c inode size buf a found idle =
    rw (found, invalidate_past_size)
      (replaced c inode buf (invalidate_buf buf size).0 (pos (invalidate_buf buf size).1) a found
        (rw idle (nothing_more _ _ _ (clip_counted size buf.current))))

-- What one part of the code does to the buffers of all inodes. A truncation comes while no batch of
-- the inode is flushing, and a drop finds a count that is not below zero.
pub data Step (c : Coalescer) : Coalescer → Type 0 where
  wrote :
      (inode off : ℕ) (written : List ℕ) (tier now : ℕ) (r : Result (Unit {0})) (c' : Coalescer)
      → write c inode off written tier now ≡ some (c', r)
      → Step c c'
  began : (inode : ℕ) → Step c (begin_flush c inode)
  settled :
      (inode end mtime : ℕ) (outcome : Option Error)
      → Step c (settle_flush c inode end mtime outcome)
  dropped :
      (inode n : ℕ) (buf : InodeBuf)
      → get_buf c.buffers inode ≡ some buf
      → bytes_of buf.current ≡ pos n
      → buf.flushing ≡ none
      → Step c (drop_buf c inode)
  truncated :
      (inode size : ℕ) (buf : InodeBuf)
      → get_buf c.buffers inode ≡ some buf
      → buf.flushing ≡ none
      → Step c (invalidate_past_size c inode size)

-- Writes, both parts of a flush, drops of inodes whose count is not below zero, and truncations while
-- no batch of the inode is flushing keep the semaphore at what the buffers count, whether the write or
-- the flush succeeds or fails; a stripe has a byte at least.
pub Step-Accounts : (c c' : Coalescer) → 0 < c.stripe_size → Accounts c → Step c c' → Accounts c'
Step-Accounts c c' s a (wrote inode off written tier now r c'' e) =
    write-Accounts c c' inode off written tier now r s a e
Step-Accounts c c' s a (began inode) = begin_flush-Accounts c inode a
Step-Accounts c c' s a (settled inode end mtime outcome) =
    settle_flush-Accounts c inode end mtime outcome a
Step-Accounts c c' s a (dropped inode n buf found counted idle) =
    drop_buf-Accounts c inode n buf a found counted idle
Step-Accounts c c' s a (truncated inode size buf found idle) =
    invalidate_past_size-Accounts c inode size buf a found idle

split_off : (x y d e : ℤ) → x -ℤ (d +ℤ e) ≡ y → x -ℤ d ≡ y +ℤ e
split_off x y d e h = omega (int_laws, parts_of_eq (x -ℤ (d +ℤ e)) y h)

invalidate_buf-twice :
    (size : ℕ) (buf : InodeBuf) (b f : BufBatch)
    → buf.current ≡ some b
    → buf.flushing ≡ some f
    → counted_by (invalidate_buf buf size).0
        +ℤ (pos (invalidate_buf buf size).1 +ℤ pos (clip_freed size b.extents))
      ≡ counted_by buf
unfolding invalidate_buf clip
invalidate_buf-twice size buf b f current flushing = rw (current, flushing) (omega int_laws)

-- A truncation while a batch is flushing leaves the semaphore holding more than the buffers count,
-- by what was clipped off the batch that is not flushing. Before it the semaphore holds just what
-- the buffers count.
pub invalidate_past_size-leak :
    (c : Coalescer) (inode size : ℕ) (buf : InodeBuf) (b f : BufBatch)
    → Accounts c
    → get_buf c.buffers inode ≡ some buf
    → buf.current ≡ some b
    → buf.flushing ≡ some f
    → (invalidate_past_size c inode size).held
      ≡ counted_in (invalidate_past_size c inode size).buffers +ℤ pos (clip_freed size b.extents)
unfolding invalidate_past_size invalidate_buf clip
invalidate_past_size-leak c inode size buf b f a found current flushing =
    rw (found, invalidate_past_size)
      (split_off c.held _ (pos (invalidate_buf buf size).1) (pos (clip_freed size b.extents)) (
        replaced c inode buf (invalidate_buf buf size).0
          (pos (invalidate_buf buf size).1 +ℤ pos (clip_freed size b.extents)) a found
          (invalidate_buf-twice size buf b f current flushing)))
