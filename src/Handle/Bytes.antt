-- ===== src/Handle/Bytes.antt =====
-- ReadAtCtx against the bytes of the file: the newest fragment over a byte says what it is.
use place.Common.{
  ℕ, zero, suc, ◌+◌, ◌-◌, ◌≤◌, ◌<◌, ◌≡◌, refl, sym, ap, ◌∙◌, Bool, true, false, List, [], ◌∷◌, ◌++◌,
  Option, none, some, arith, All, All-map, leb, ◌==◌, if◌then◌else◌, length, take, drop, replicate,
  length-append, length-drop, length-take_of_le, take-append,
}
use place.Fragment.{
  Fragment, Locator, ReadSlice, plan_read, tier_mem, Ivl, read_slice, sparse_slice,
}
use place.Fragment.Cover.{Source, hole, inside}
use place.Fragment.Shadow.{source_of}
use place.Fragment.Owner.{newest}
use place.Fragment.Tiles.{Tiles}
use place.Fragment.Plan.{
  slice_lo, slice_hi, slice_source, resolve, plan_read-Tiles, resolve-plan_read, plan_read-Cuts,
}
use place.Coalescer.{Result, ok, InodeBuf}
use place.Handle.{◌>>=◌, mem_fragments, slice_bytes, read_plan, read_at_ctx, fill}
use place.Handle.Buffered.{asked}
use mathlib.Core.List.{append_assoc, append-nil}

-- The bytes from `s` on, `n` of them.
unfoldable pub span : (ℕ → ℕ) → ℕ → ℕ → List ℕ
span g s zero = []
span g s (suc n) = g s ∷ span g (s + 1) n

length-span : (g : ℕ → ℕ) (s n : ℕ) → length (span g s n) ≡ n
unfolding span
length-span g s zero = refl
length-span g s (suc n) = ap suc (length-span g (s + 1) n)

span-add :
    (g : ℕ → ℕ) (s a b t n : ℕ) → s + a ≡ t → a + b ≡ n → span g s n ≡ span g s a ++ span g t b
unfolding span
span-add g s zero b t n e k =
    let start : s ≡ t = omega arith in
    let same : n ≡ b = omega arith in ap (span g s) same ∙ ap (λ z. span g z b) start
span-add g s (suc a) b t zero e k = absurd (omega arith)
span-add g s (suc a) b t (suc n) e k =
    ap (λ l. g s ∷ l) (span-add g (s + 1) a b t n (omega arith) (omega arith))

span-ext :
    (g h : ℕ → ℕ) (s n : ℕ) → ((x : ℕ) → s ≤ x → x < s + n → g x ≡ h x) → span g s n ≡ span h s n
unfolding span
span-ext g h s zero e = refl
span-ext g h s (suc n) e =
    ap (λ x. x ∷ span g (s + 1) n) (e s (omega arith) (omega arith))
    ∙ ap (λ l. h s ∷ l)
        (span-ext g h (s + 1) n (λ x lo hi. e x (omega (arith, lo)) (omega (arith, hi))))

drop-append_add : (xs ys : List ℕ) (k m : ℕ) → m ≡ length xs + k → drop m (xs ++ ys) ≡ drop k ys
drop-append_add [] ys k m e = ap (λ n. drop n ys) (omega arith)
drop-append_add (x ∷ xs) ys k zero e = absurd (omega arith)
drop-append_add (x ∷ xs) ys k (suc m) e = drop-append_add xs ys k m (omega arith)

fill-append :
    (done rest bytes : List ℕ) (at : ℕ)
    → at ≡ length done
    → fill (done ++ rest) at bytes ≡ (done ++ bytes) ++ drop (length bytes) rest
unfolding fill
fill-append done rest bytes at e =
    ap (λ l. l ++ (bytes ++ drop (at + length bytes) (done ++ rest)))
      (ap (λ n. take n (done ++ rest)) e ∙ take-append done rest)
    ∙ ap (λ l. done ++ (bytes ++ l))
        (drop-append_add done rest (length bytes) (at + length bytes) (omega arith))
    ∙ sym (append_assoc done bytes (drop (length bytes) rest))

replicate-span : (g : ℕ → ℕ) (s n : ℕ) → ((x : ℕ) → g x ≡ 0) → replicate n 0 ≡ span g s n
unfolding span
replicate-span g s zero e = refl
replicate-span g s (suc n) e =
    ap (λ z. z ∷ replicate n 0) (sym (e s)) ∙ ap (λ l. g s ∷ l) (replicate-span g (s + 1) n e)

span-shift :
    (g : ℕ → ℕ) (o s k t a n : ℕ)
    → t ≡ s + k
    → a ≡ o + k
    → span (λ x. g (o + (x - s))) t n ≡ span g a n
unfolding span
span-shift g o s k t a zero e h = refl
span-shift g o s k t a (suc n) e h =
    ap (λ z. g z ∷ span (λ x. g (o + (x - s))) (t + 1) n) (omega arith)
    ∙ ap (λ l. g a ∷ l) (span-shift g o s (k + 1) (t + 1) (a + 1) n (omega arith) (omega arith))

Tiles-le : (l : List ReadSlice) (s e : ℕ) → Tiles slice_lo slice_hi l s e → s ≤ e
Tiles-le [] s e h = omega arith
Tiles-le (a ∷ l) s e (first, pos, rest) = omega (arith, Tiles-le l (slice_hi a) e rest)

resolve-here :
    (a : ReadSlice) (l : List ReadSlice) (x : ℕ)
    → slice_lo a ≤ x
    → x < slice_hi a
    → resolve (a ∷ l) x ≡ some (slice_source a x)
unfolding resolve
resolve-here a l x lo hi =
    let held : inside (slice_lo a) (slice_hi a) x ≡ true = ground arith in rw (held, resolve) refl

resolve-later :
    (a : ReadSlice) (l : List ReadSlice) (x : ℕ) → slice_hi a ≤ x → resolve (a ∷ l) x ≡ resolve l x
unfolding resolve
resolve-later a l x lo =
    let past : inside (slice_lo a) (slice_hi a) x ≡ false = ground arith in rw (past, resolve) refl

-- The bytes in the segments and the buffer: one at each address, and nothing in a hole.
abbrev pub byte_at : (ℕ → ℕ → ℕ → ℕ) → Source → ℕ
byte_at cells hole = 0
byte_at cells (Source.at tier segment offset) = cells tier segment offset

either :
    (b c : Bool) (x y : Result (List ℕ))
    → (b ≡ true → ok [] ≡ y)
    → (c ≡ true → ok [] ≡ y)
    → (b ≡ false → c ≡ false → x ≡ y)
    → (if b then ok [] else if c then ok [] else x) ≡ y
either true c x y h k r = h refl
either false true x y h k r = k refl
either false false x y h k r = r refl refl

nothing : (g : ℕ → ℕ) (off n : ℕ) → n ≡ 0 → ◌≡◌ {A = Result (List ℕ)} (ok []) (ok (span g off n))
unfolding span
nothing g off n e = ap (λ k. ok (span g off k)) (sym e)

module _ (read_segment : Locator → Result (List ℕ)) (buf : Option InodeBuf)
    (cells : ℕ → ℕ → ℕ → ℕ) where
  abbrev slice_span : ReadSlice → List ℕ
  slice_span sl = span (λ x. byte_at cells (slice_source sl x)) sl.logical_off sl.length

  abbrev Served : ReadSlice → Type 0
  Served sl = slice_bytes read_segment buf sl ≡ ok (slice_span sl)

  -- Every part of a fragment's payload can be read, and has the bytes at its addresses.
  abbrev pub Readable : Fragment → Type 0
  Readable f =
      (a n : ℕ)
      → a + n ≤ f.length
      → read_segment (record {
        tier = f.tier;
        segment_id = f.segment_id;
        offset = f.segment_offset + a;
        length = n;
      })
        ≡ ok (span (cells f.tier f.segment_id) (f.segment_offset + a) n)

  Served-read_slice :
      (f : Fragment) (s e : ℕ)
      → (f.tier == tier_mem) ≡ false
      → Readable f
      → f.logical_off ≤ s
      → s ≤ e
      → e ≤ f.logical_off + f.length
      → Served (read_slice f s e)
  unfolding slice_bytes
  Served-read_slice f s e on_disk readable lo mid hi =
      rw (on_disk, slice_bytes)
        (readable (s - f.logical_off) (e - s) (omega arith)
          ∙ ap ok (
              sym (
                span-shift (cells f.tier f.segment_id) (f.segment_offset + (s - f.logical_off)) s 0
                  s _ (e - s) (omega arith) (omega arith))))

  Served-sparse_slice : (u : Ivl) → Served (sparse_slice u)
  unfolding slice_bytes
  Served-sparse_slice u = ap ok (
      replicate-span (λ x. byte_at cells (slice_source (sparse_slice u) x)) u.start
        (u.end - u.start) (λ x. refl))

  abbrev value : Option Source → ℕ
  value none = 0
  value (some s) = byte_at cells s

  read_plan-step :
      (off : ℕ) (a : ReadSlice) (l : List ReadSlice) (p bytes : List ℕ)
      → slice_bytes read_segment buf a ≡ ok bytes
      → read_plan read_segment buf off (a ∷ l) p
        ≡ read_plan read_segment buf off l (fill p (a.logical_off - off) bytes)
  unfolding read_plan
  read_plan-step off a l p bytes e =
      ap (λ r. r >>= λ b. read_plan read_segment buf off l (fill p (a.logical_off - off) b)) e

  -- The bytes of the first slice, and then those of the others.
  span-resolve :
      (a : ReadSlice) (l : List ReadSlice) (s k n : ℕ)
      → slice_lo a ≡ s
      → a.length + k ≡ n
      → span (λ x. value (resolve (a ∷ l) x)) s n
        ≡ slice_span a ++ span (λ x. value (resolve l x)) (slice_hi a) k
  span-resolve a l s k n first len =
      span-add (λ x. value (resolve (a ∷ l) x)) s a.length k (slice_hi a) n (omega arith) len
      ∙ ap (λ m. m ++ span (λ x. value (resolve (a ∷ l) x)) (slice_hi a) k)
          (ap (λ z. span (λ x. value (resolve (a ∷ l) x)) z a.length) (sym first)
            ∙ span-ext _ _ a.logical_off a.length (λ x lo hi. ap value (resolve-here a l x lo hi)))
      ∙ ap (λ m. slice_span a ++ m)
          (span-ext _ _ (slice_hi a) k (λ x lo hi. ap value (resolve-later a l x lo)))

  -- Slices that lie end to end fill the slice that was passed in, one after the other.
  read_plan-span :
      (plan : List ReadSlice) (off s e : ℕ) (done rest : List ℕ)
      → Tiles slice_lo slice_hi plan s e
      → All Served plan
      → s ≡ off + length done
      → e ≡ s + length rest
      → read_plan read_segment buf off plan (done ++ rest)
        ≡ ok (done ++ span (λ x. value (resolve plan x)) s (length rest))
  unfolding read_plan span
  read_plan-span [] off s e done [] tiles h at end = refl
  read_plan-span [] off s e done (y ∷ rest) tiles h at end = absurd (omega arith)
  read_plan-span (a ∷ l) off s e done rest (first, pos, tiles) h at end =
      let bytes : List ℕ = slice_span a in
      let left : List ℕ = drop (length bytes) rest in
      let within : slice_hi a ≤ e = Tiles-le l (slice_hi a) e tiles in
      let len : length bytes ≡ a.length = length-span _ a.logical_off a.length in
      let left_len : length left ≡ length rest - length bytes = length-drop (length bytes) rest in
      read_plan-step off a l (done ++ rest) bytes h.0
      ∙ ap (read_plan read_segment buf off l)
          (fill-append done rest bytes (a.logical_off - off) (omega arith))
      ∙ read_plan-span l off (slice_hi a) e (done ++ bytes) left tiles h.1
          (omega (arith, length-append {0} done bytes, len)) (omega (arith, len, left_len))
      ∙ ap ok (
          append_assoc done bytes _
          ∙ ap (λ m. done ++ m)
              (sym (
                span-resolve a l s (length left) (length rest) first
                  (omega (arith, len, left_len)))))

  -- A fragment on disk with a byte at least, whose payload can be read.
  abbrev OnDisk : Fragment → Type 0
  OnDisk f = (0 < f.length) × ((f.tier == tier_mem) ≡ false) × Readable f

  plan-span :
      (frags : List Fragment) (off n : ℕ) (p : List ℕ)
      → All OnDisk frags
      → n ≤ length p
      → read_plan read_segment buf off (plan_read frags off n) (take n p)
        ≡ ok (span (λ x. byte_at cells (source_of (newest frags x) x)) off n)
  plan-span frags off n p held fits =
      let len : length (take n p) ≡ n = length-take_of_le n p fits in
      let start : off ≡ off + length {0} {A = ℕ} [] = omega arith in
      let end : off + n ≡ off + length (take n p) = omega (arith, len) in
      let full = All-map frags (λ (f : Fragment) (h : OnDisk f). h.0) held in
      let cuts =
        All-map frags
          (λ (f : Fragment) (h : OnDisk f).
            (h.0, λ s e lo mid hi. Served-read_slice f s e h.1 h.2 lo mid hi))
          held in
      read_plan-span (plan_read frags off n) off off (off + n) [] (take n p)
        (plan_read-Tiles frags off n full)
        (plan_read-Cuts Served frags off n cuts Served-sparse_slice) start end
      ∙ ap ok (
          ap (span (λ x. value (resolve (plan_read frags off n) x)) off) len
          ∙ span-ext _ _ off n (λ x lo hi. ap value (resolve-plan_read frags off n x lo hi)))

  -- A read over fragments on disk, and no buffered ones.
  pub read_at_ctx-span :
      (disk : List Fragment) (size off : ℕ) (p : List ℕ)
      → All OnDisk disk
      → mem_fragments buf off (asked size (length p) off) ≡ []
      → read_at_ctx read_segment buf disk size p off
        ≡ ok (
            span (λ x. byte_at cells (source_of (newest disk x) x)) off (asked size (length p) off))
  unfolding read_at_ctx
  read_at_ctx-span disk size off p held none_buffered =
      let n : ℕ = asked size (length p) off in
      rw (none_buffered, append-nil)
        (either (length p == 0) (leb size off) _ _ (λ e. nothing _ off n (ground (arith, e)))
          (λ e. nothing _ off n (ground (arith, e)))
          (λ e k. plan-span disk off n p held (ground (arith, e, k))))
