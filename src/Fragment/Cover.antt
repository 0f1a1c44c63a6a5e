-- ===== src/Fragment/Cover.antt =====
-- What the two loops of planRead and canonicalView do, at one byte: the byte passes from the
-- uncovered intervals to the output at the first fragment that covers it.
use place.Common.{
  ℕ, ◌+◌, ◌-◌, ◌≤◌, ◌<◌, ◌≡◌, refl, Bool, true, false, ◌&&◌, List, [], ◌∷◌, ◌++◌, arith, All,
  All-append, ltb, leb, if◌then◌else◌, Bool-cases, inl, inr,
}
use place.Fragment.{Fragment, Ivl, frag_end, apart, ov_start, ov_end, left_over, emitted, subtract}
use mathlib.Core.List.{append_assoc, append-nil}

-- Where a byte of a file comes from: a hole, or an address in a segment.
pub data Source : Type 0 where
  hole : Source
  at : ℕ → ℕ → ℕ → Source

unfoldable pub address : Fragment → ℕ → Source
address f x = at f.tier f.segment_id (f.segment_offset + (x - f.logical_off))

abbrev pub inside : ℕ → ℕ → ℕ → Bool
inside s e x = leb s x && ltb x e

abbrev pub covers : Fragment → ℕ → Bool
covers f x = inside f.logical_off (frag_end f) x

-- How many entries of a list hold byte `x`; an entry `a` reaches from `lo a` up to `hi a`.
module _ {A : Type 0} (lo hi : A → ℕ) where
  unfoldable pub hits : ℕ → List A → ℕ
  hits x [] = 0
  hits x (a ∷ l) = (if inside (lo a) (hi a) x then 1 else 0) + hits x l

  pub hits-nil : (x : ℕ) → hits x [] ≡ 0
  unfolding hits
  hits-nil x = refl

  pub hits-append : (x : ℕ) (l m : List A) → hits x (l ++ m) ≡ hits x l + hits x m
  unfolding hits
  hits-append x [] m = omega arith
  hits-append x (a ∷ l) m = omega (arith, hits-append x l m)

-- Every entry that holds byte `x` takes it from `e`.
abbrev pub Good : {A : Type 0} → (A → ℕ) → (A → ℕ) → (A → ℕ → Source) → ℕ → Source → List A → Type 0
Good lo hi src x e = All (λ a. inside (lo a) (hi a) x ≡ true → src a x ≡ e)

unfoldable pub open_hits : ℕ → List Ivl → ℕ
unfolding hits
open_hits = hits (λ u. u.start) (λ u. u.end)

pub open_hits-append :
    (x : ℕ) (us vs : List Ivl) → open_hits x (us ++ vs) ≡ open_hits x us + open_hits x vs
unfolding open_hits
open_hits-append x us vs = hits-append (λ u. u.start) (λ u. u.end) x us vs

pub open_hits-nil : (x : ℕ) → open_hits x [] ≡ 0
unfolding open_hits
open_hits-nil x = refl

abbrev pub IsOpen : Ivl → Type 0
IsOpen u = u.start < u.end

unfoldable pub left_all : Fragment → List Ivl → List Ivl
left_all f [] = []
left_all f (u ∷ us) = left_over f u ++ left_all f us

left_over-hits :
    (f : Fragment) (u : Ivl) (x : ℕ)
    → open_hits x (left_over f u) ≡ (if covers f x then 0 else open_hits x (u ∷ []))
unfolding left_over open_hits
left_over-hits f u x = ground arith

left_over-IsOpen : (f : Fragment) (u : Ivl) → IsOpen u → All IsOpen (left_over f u)
unfolding left_over
left_over-IsOpen f u h = ground arith

pub left_all-hits :
    (f : Fragment) (us : List Ivl) (x : ℕ)
    → open_hits x (left_all f us) ≡ (if covers f x then 0 else open_hits x us)
unfolding left_all
left_all-hits f [] x = ground (arith, open_hits-nil x)
left_all-hits f (u ∷ us) x = ground (
  arith,
  open_hits-append x (left_over f u) (left_all f us),
  open_hits-append x (u ∷ []) us,
  left_over-hits f u x,
  left_all-hits f us x,
)

pub left_all-IsOpen : (f : Fragment) (us : List Ivl) → All IsOpen us → All IsOpen (left_all f us)
unfolding left_all
left_all-IsOpen f [] h = tt
left_all-IsOpen f (u ∷ us) h =
    All-append IsOpen (left_over f u) _ (left_over-IsOpen f u h.0) (left_all-IsOpen f us h.1)

All-unless :
    {A : Type 0} (P : A → Type 0) (b : Bool) (l : List A) → All P l → All P (if b then [] else l)
All-unless P true l h = tt
All-unless P false l h = h

-- An output whose entries are made by `emit` from an overlap [s, e) of a fragment, where `lo`,
-- `hi` and `src` read an entry back.
pub record Reads {A : Type 0} (emit : Fragment → ℕ → ℕ → A) (lo hi : A → ℕ) (src : A → ℕ → Source)
    : Type 0 where
  pub lo_emit : (f : Fragment) (s e : ℕ) → lo (emit f s e) ≡ s
  pub hi_emit : (f : Fragment) (s e : ℕ) → s ≤ e → hi (emit f s e) ≡ e
  pub src_emit :
      (f : Fragment) (s e x : ℕ) → f.logical_off ≤ s → s ≤ x → src (emit f s e) x ≡ address f x

module _ {A : Type 0} {emit : Fragment → ℕ → ℕ → A} {lo hi : A → ℕ} {src : A → ℕ → Source}
    (r : Reads emit lo hi src) where
  emitted-hits :
      (f : Fragment) (u : Ivl) (x : ℕ)
      → IsOpen u
      → hits lo hi x (emitted emit f u) ≡ (if covers f x then open_hits x (u ∷ []) else 0)
  unfolding emitted open_hits
  emitted-hits f u x h =
      ground
        (arith, r.lo_emit f (ov_start f u) (ov_end f u), r.hi_emit f (ov_start f u) (ov_end f u))

  emitted-Good :
      (f : Fragment) (u : Ivl) (x : ℕ) → Good lo hi src x (address f x) (emitted emit f u)
  unfolding emitted
  emitted-Good f u x = All-unless _ (apart f u) _ (
    (λ held.
        r.src_emit f (ov_start f u) (ov_end f u) x (ground arith)
          (ground (arith, r.lo_emit f (ov_start f u) (ov_end f u)))),
    tt,
  )

  unfoldable pub emitted_all : Fragment → List Ivl → List A
  emitted_all f [] = []
  emitted_all f (u ∷ us) = emitted emit f u ++ emitted_all f us

  pub emitted_all-hits :
      (f : Fragment) (us : List Ivl) (x : ℕ)
      → All IsOpen us
      → hits lo hi x (emitted_all f us) ≡ (if covers f x then open_hits x us else 0)
  unfolding emitted_all
  emitted_all-hits f [] x h = ground (arith, open_hits-nil x, hits-nil lo hi x)
  emitted_all-hits f (u ∷ us) x h = ground (
    arith,
    hits-append lo hi x (emitted emit f u) (emitted_all f us),
    open_hits-append x (u ∷ []) us,
    emitted-hits f u x h.0,
    emitted_all-hits f us x h.1,
  )

  pub emitted_all-Good :
      (f : Fragment) (us : List Ivl) (x : ℕ) → Good lo hi src x (address f x) (emitted_all f us)
  unfolding emitted_all
  emitted_all-Good f [] x = tt
  emitted_all-Good f (u ∷ us) x =
      All-append _ (emitted emit f u) _ (emitted-Good f u x) (emitted_all-Good f us x)

  emitted-IsSpan :
      (f : Fragment) (u : Ivl) → 0 < f.length → IsOpen u → All (λ a. lo a < hi a) (emitted emit f u)
  unfolding emitted
  emitted-IsSpan f u p h =
      ground
        (arith, r.lo_emit f (ov_start f u) (ov_end f u), r.hi_emit f (ov_start f u) (ov_end f u))

  pub emitted_all-IsSpan :
      (f : Fragment) (us : List Ivl)
      → 0 < f.length
      → All IsOpen us
      → All (λ a. lo a < hi a) (emitted_all f us)
  unfolding emitted_all
  emitted_all-IsSpan f [] p h = tt
  emitted_all-IsSpan f (u ∷ us) p h =
      All-append _ (emitted emit f u) _ (emitted-IsSpan f u p h.0) (emitted_all-IsSpan f us p h.1)

  -- Every part of a fragment that may be emitted has a property.
  abbrev pub Cuts : (A → Type 0) → Fragment → Type 0
  Cuts P f = (s e : ℕ) → f.logical_off ≤ s → s ≤ e → e ≤ frag_end f → P (emit f s e)

  emitted-Cuts :
      (P : A → Type 0) (f : Fragment) (u : Ivl)
      → Cuts P f
      → 0 < f.length
      → IsOpen u
      → All P (emitted emit f u)
  unfolding emitted
  emitted-Cuts P f u cuts some_byte h = elim (Bool-cases (apart f u)) [
    | inl outside ↦ rw outside tt
    | inr overlap ↦ rw overlap (
      cuts (ov_start f u) (ov_end f u) (ground arith) (ground (arith, overlap)) (ground arith),
      tt,
    )
  ]

  pub emitted_all-Cuts :
      (P : A → Type 0) (f : Fragment) (us : List Ivl)
      → Cuts P f
      → 0 < f.length
      → All IsOpen us
      → All P (emitted_all f us)
  unfolding emitted_all
  emitted_all-Cuts P f [] cuts some_byte h = tt
  emitted_all-Cuts P f (u ∷ us) cuts some_byte h =
      All-append P (emitted emit f u) _ (emitted-Cuts P f u cuts some_byte h.0)
        (emitted_all-Cuts P f us cuts some_byte h.1)

  pub subtract_lem :
      (f : Fragment) (us : List Ivl) (out : List A) (next : List Ivl)
      → subtract emit f us out next ≡ (out ++ emitted_all f us, next ++ left_all f us)
  unfolding subtract emitted_all left_all
  subtract_lem f [] out next = simp append-nil
  subtract_lem f (u ∷ us) out next =
      rw (subtract_lem f us (out ++ emitted emit f u) (next ++ left_over f u)) (simp append_assoc)
