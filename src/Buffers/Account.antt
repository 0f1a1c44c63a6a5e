-- ===== src/Buffers/Account.antt =====
-- What the code holds of the global semaphore, against what the buffers count.
use place.Common.{
  ℕ, ◌<◌, ◌≡◌, refl, sym, ap, ◌∙◌, List, [], ◌∷◌, Option, none, some, arith, ◌==◌, length,
  Bool-cases, Option-cases, inl, inr,
}
use place.Common.Int.{ℤ, pos, ◌+ℤ◌, ◌-ℤ◌, int_laws, parts_of_eq, +ℤ-left, +ℤ-left_end, level_down}
use mathlib.Core.Path.{subst}
use place.Coalescer.{Error, ok, BufBatch, InodeBuf, new_buf_batch, buffer_write, write_loop, or_new}
use place.Coalescer.Split.{write_loop_lem}
use place.Buffers.{
  Coalescer, get_buf, set_buf, delete_buf, buf_or_new, begin_flush, settle_flush, bytes_of,
  swap_buf, settle_buf,
}

-- The bytes one inode's batches count, and those of all inodes.
abbrev pub counted_by : InodeBuf → ℤ
counted_by b = bytes_of b.current +ℤ bytes_of b.flushing

abbrev pub counted_in : List (ℕ × InodeBuf) → ℤ
counted_in [] = pos 0
counted_in ((i, b) ∷ l) = counted_by b +ℤ counted_in l

-- The semaphore holds what the buffers count.
abbrev pub Accounts : Coalescer → Type 0
Accounts c = c.held ≡ counted_in c.buffers

abbrev pub counted_of : Option InodeBuf → ℤ
counted_of none = pos 0
counted_of (some b) = counted_by b

pub counted_in-set_buf :
    (l : List (ℕ × InodeBuf)) (inode : ℕ) (b : InodeBuf)
    → counted_in (set_buf l inode b) +ℤ counted_of (get_buf l inode) ≡ counted_in l +ℤ counted_by b
unfolding set_buf get_buf
counted_in-set_buf [] inode b = omega (int_laws)
counted_in-set_buf ((i, a) ∷ l) inode b = elim (Bool-cases (i == inode)) [
  | inl e ↦ rw e (omega int_laws)
  | inr e ↦ rw e (
      +ℤ-left (counted_by a) (counted_in (set_buf l inode b)) (counted_of (get_buf l inode))
        (counted_in l) (counted_by b) (counted_in-set_buf l inode b))
]

pub counted_in-delete_buf :
    (l : List (ℕ × InodeBuf)) (inode : ℕ)
    → counted_in (delete_buf l inode) +ℤ counted_of (get_buf l inode) ≡ counted_in l
unfolding delete_buf get_buf
counted_in-delete_buf [] inode = omega (int_laws)
counted_in-delete_buf ((i, a) ∷ l) inode = elim (Bool-cases (i == inode)) [
  | inl e ↦ rw e (omega int_laws)
  | inr e ↦ rw e (
      +ℤ-left_end (counted_by a) (counted_in (delete_buf l inode)) (counted_of (get_buf l inode))
        (counted_in l) (counted_in-delete_buf l inode))
]

pub counted_or_new :
    (found : Option InodeBuf) (tier : ℕ) → counted_by (buf_or_new found tier) ≡ counted_of found
counted_or_new none tier = omega int_laws
counted_or_new (some b) tier = refl

pub counted_in-set_buf_same :
    (l : List (ℕ × InodeBuf)) (inode : ℕ) (b : InodeBuf)
    → counted_by b ≡ counted_of (get_buf l inode)
    → counted_in (set_buf l inode b) ≡ counted_in l
counted_in-set_buf_same l inode b e =
    omega (int_laws, parts_of_eq _ _ e, parts_of_eq _ _ (counted_in-set_buf l inode b))

buffer_write_inv :
    (stripe_size gen now : ℕ) (buf buf' : InodeBuf) (off : ℕ) (written : List ℕ) (gen' : ℕ)
    (b : BufBatch) (g : ℕ)
    → write_loop (length written) stripe_size gen (or_new buf.current) off written ≡ some (b, g)
    → buffer_write stripe_size gen now buf off written ≡ some (ok (buf', gen'))
    → (buf'.current ≡ some (record b { mtime = now })) × (buf'.flushing ≡ buf.flushing)
unfolding buffer_write
buffer_write_inv stripe_size gen now buf buf' off written gen' b g loop e =
    elim (Option-cases buf.poisoned) [
      | inr (p, poisoned) ↦ absurd (ground (arith, poisoned))
      | inl clean ↦ (ground (arith, clean, loop), ground (arith, clean, loop))
    ]

bytes_of-or_new : (b : Option BufBatch) → (or_new b).bytes ≡ bytes_of b
bytes_of-or_new none = refl
bytes_of-or_new (some b) = refl

pub counted_by-buffer_write :
    (stripe_size gen now : ℕ) (buf buf' : InodeBuf) (off : ℕ) (written : List ℕ) (gen' : ℕ)
    → 0 < stripe_size
    → buffer_write stripe_size gen now buf off written ≡ some (ok (buf', gen'))
    → counted_by buf' ≡ counted_by buf +ℤ pos (length written)
counted_by-buffer_write stripe_size gen now buf buf' off written gen' s e =
    let (b, g, es, loop, wrote) =
      write_loop_lem (length written) stripe_size gen (or_new buf.current) off written s
        (omega arith) in
    let (current, flushing) =
      buffer_write_inv stripe_size gen now buf buf' off written gen' b g loop e in
    rw (current, flushing) (rw (wrote.counted, bytes_of-or_new buf.current) (omega int_laws))

-- An inode's buffer replaced, and what its count changes by taken from the semaphore.
pub replaced :
    (c : Coalescer) (inode : ℕ) (buf buf' : InodeBuf) (d : ℤ)
    → Accounts c
    → get_buf c.buffers inode ≡ some buf
    → counted_by buf' +ℤ d ≡ counted_by buf
    → c.held -ℤ d ≡ counted_in (set_buf c.buffers inode buf')
replaced c inode buf buf' d a found e =
    level_down c.held (counted_in c.buffers) (counted_by buf) (counted_by buf')
      (counted_in (set_buf c.buffers inode buf')) d a
      (subst
        (λ o.
          counted_in (set_buf c.buffers inode buf') +ℤ counted_of o
          ≡ counted_in c.buffers +ℤ counted_by buf')
        found (counted_in-set_buf c.buffers inode buf'))
      e

pub swap_buf_inv :
    (buf : InodeBuf) (b : BufBatch) (buf' : InodeBuf)
    → swap_buf buf ≡ some (b, buf')
    → (buf.flushing ≡ none)
      × (buf.current ≡ some b)
      × (buf' ≡ record buf { flushing = some b; current = some new_buf_batch })
unfolding swap_buf
swap_buf_inv buf b buf' e = elim (Option-cases buf.flushing) [
  | inr (f, running) ↦ absurd (ground (arith, running))
  | inl idle ↦ elim (Option-cases buf.current) [
    | inl nothing ↦ absurd (ground (arith, idle, nothing))
    | inr (b', due) ↦ (idle, ground (arith, idle, due), ground (arith, idle, due))
  ]
]

counted_by-swap_buf :
    (buf : InodeBuf) (b : BufBatch) (buf' : InodeBuf)
    → swap_buf buf ≡ some (b, buf')
    → counted_by buf' ≡ counted_by buf
counted_by-swap_buf buf b buf' e =
    let (idle, due, same) = swap_buf_inv buf b buf' e in rw (same, idle, due) (omega int_laws)

pub begin_flush-Accounts : (c : Coalescer) (inode : ℕ) → Accounts c → Accounts (begin_flush c inode)
unfolding begin_flush
begin_flush-Accounts c inode a = elim (Option-cases (get_buf c.buffers inode)) [
  | inl missing ↦ rw (missing, begin_flush) a
  | inr (buf, found) ↦ elim (Option-cases (swap_buf buf)) [
    | inl none_due ↦ rw (found, begin_flush) (rw (none_due) a)
    | inr ((b, buf'), due) ↦
        rw (found, begin_flush)
          (rw (due) (
            a
            ∙ sym (
                counted_in-set_buf_same c.buffers inode buf'
                  (counted_by-swap_buf buf b buf' due ∙ sym (ap counted_of found)))))
  ]
]

counted_by-settle_buf :
    (buf : InodeBuf) (end mtime : ℕ) (outcome : Option Error)
    → counted_by (settle_buf buf end mtime outcome) +ℤ bytes_of buf.flushing ≡ counted_by buf
unfolding settle_buf
counted_by-settle_buf buf end mtime none = omega int_laws
counted_by-settle_buf buf end mtime (some e) = omega int_laws

pub settle_flush-Accounts :
    (c : Coalescer) (inode end mtime : ℕ) (outcome : Option Error)
    → Accounts c
    → Accounts (settle_flush c inode end mtime outcome)
unfolding settle_flush
settle_flush-Accounts c inode end mtime outcome a = elim (Option-cases (get_buf c.buffers inode)) [
  | inl missing ↦ rw (missing, settle_flush) a
  | inr (buf, found) ↦
      rw (found, settle_flush)
        (replaced c inode buf (settle_buf buf end mtime outcome) (bytes_of buf.flushing) a found
          (counted_by-settle_buf buf end mtime outcome))
]
