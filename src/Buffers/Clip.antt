-- ===== src/Buffers/Clip.antt =====
-- What a truncation leaves of a batch.
use place.Common.{
  ℕ, zero, suc, ◌+◌, ◌-◌, ◌≤◌, ◌<◌, ◌≡◌, refl, List, [], ◌∷◌, Option, none, some, arith, ltb, leb,
  if◌then◌else◌, ◌&&◌, length, take, length-take_of_le,
}
use place.Coalescer.{BufExtent}
use place.Buffers.{clip_extents}

abbrev pub get_elem? : List ℕ → ℕ → Option ℕ
get_elem? [] i = none
get_elem? (x ∷ xs) zero = some x
get_elem? (x ∷ xs) (suc i) = get_elem? xs i

-- The byte at `x` in every extent that covers `x`, with the extent's seq.
unfoldable pub bytes_at : ℕ → List BufExtent → List (ℕ × Option ℕ)
bytes_at x [] = []
bytes_at x (e ∷ es) =
    let rest = bytes_at x es in
    if leb e.off x && ltb x (e.off + length e.bytes)
    then (e.seq, get_elem? e.bytes (x - e.off)) ∷ rest
    else rest

get_elem?-take : (n i : ℕ) (l : List ℕ) → i < n → get_elem? (take n l) i ≡ get_elem? l i
get_elem?-take zero i l h = absurd (omega arith)
get_elem?-take (suc n) i [] h = refl
get_elem?-take (suc n) zero (x ∷ l) h = refl
get_elem?-take (suc n) (suc i) (x ∷ l) h = get_elem?-take n i l (omega arith)

-- Below `size` a truncated batch has the bytes it had, under the same seqs and in the same order.
pub bytes_at-clip_extents :
    (size x : ℕ) (es : List BufExtent)
    → x < size
    → bytes_at x (clip_extents size es) ≡ bytes_at x es
unfolding bytes_at clip_extents
bytes_at-clip_extents size x [] h = refl
bytes_at-clip_extents size x (e ∷ es) h = ground (
  arith,
  bytes_at-clip_extents size x es h,
  length-take_of_le (size - e.off) e.bytes,
  get_elem?-take (size - e.off) (x - e.off) e.bytes,
)

-- From `size` on a truncated batch has no byte.
pub bytes_at-clip_extents_past :
    (size x : ℕ) (es : List BufExtent) → size ≤ x → bytes_at x (clip_extents size es) ≡ []
unfolding bytes_at clip_extents
bytes_at-clip_extents_past size x [] h = refl
bytes_at-clip_extents_past size x (e ∷ es) h =
    ground (arith, bytes_at-clip_extents_past size x es h, length-take_of_le (size - e.off) e.bytes)
