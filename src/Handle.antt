-- ===== src/Handle.antt =====
-- store/handle.go, ReadAtCtx: the plan over the fragments on disk and those in the buffer, and the
-- copies that fill the caller's slice. The reader of a segment is an argument.
mod Slice
pub mod Buffered
pub mod Bytes
mod Examples
use place.Common.{
  ℕ, ◌+◌, ◌-◌, Bool, true, false, List, [], ◌∷◌, ◌++◌, Option, none, some, ltb, leb, ◌==◌,
  if◌then◌else◌, length, take, drop, replicate,
}
use place.Fragment.{Fragment, Locator, ReadSlice, plan_read, tier_mem}
use place.Coalescer.{Error, Result, ok, err, InodeBuf, fragments_for, copy_out}

infixl 5 ◌>>=◌
abbrev pub ◌>>=◌ {ℓ} : {A B : Type ℓ} → Result A → (A → Result B) → Result B
ok a >>= f = f a
err e >>= f = err e

-- memFrags: nothing without a buffer.
unfoldable pub mem_fragments : Option InodeBuf → ℕ → ℕ → List Fragment
mem_fragments none off len = []
mem_fragments (some buf) off len = fragments_for buf off len

unfoldable pub copy_out_of : Option InodeBuf → Locator → ℕ → Result (List ℕ)
copy_out_of none loc base = err Error.no_buffer
copy_out_of (some buf) loc base = copy_out buf loc base

-- p[at : at + length bytes] filled with `bytes`.
unfoldable pub fill : List ℕ → ℕ → List ℕ → List ℕ
fill p at bytes = take at p ++ (bytes ++ drop (at + length bytes) p)

module _ (read_segment : Locator → Result (List ℕ)) (buf : Option InodeBuf) where
  -- The bytes of one slice of the plan.
  unfoldable pub slice_bytes : ReadSlice → Result (List ℕ)
  slice_bytes sl =
      if sl.sparse
      then ok (replicate sl.length 0)
      else if sl.locator.tier == tier_mem
      then copy_out_of buf sl.locator sl.logical_off
      else read_segment sl.locator

  -- for _, sl := range plan
  unfoldable pub read_plan : ℕ → List ReadSlice → List ℕ → Result (List ℕ)
  read_plan off [] p = ok p
  read_plan off (sl ∷ plan) p = do
    bytes ← slice_bytes sl
    read_plan off plan (fill p (sl.logical_off - off) bytes)

  -- The bytes of the file in [off, off + len(p)), fewer at its end; `size` is the size that Stat
  -- reports and `disk` the fragments of the stripes in reach.
  unfoldable pub read_at_ctx : List Fragment → ℕ → List ℕ → ℕ → Result (List ℕ)
  read_at_ctx disk size p off =
      let n = if ltb size (off + length p) then size - off else length p in
      let plan = plan_read (disk ++ mem_fragments buf off n) off n in
      if length p == 0 then ok [] else if leb size off then ok [] else read_plan off plan (take n p)
