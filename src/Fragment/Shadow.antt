-- ===== src/Fragment/Shadow.antt =====
-- The loop over the sorted fragments, at one byte: an uncovered byte is taken by the first
-- fragment of the list that covers it, and stays uncovered if none does.
use place.Common.{
  ℕ, ◌+◌, ◌<◌, ◌≡◌, refl, sym, ap, ◌∙◌, true, false, List, [], ◌∷◌, ◌++◌, Option, none, some, arith,
  All, All-append, if◌then◌else◌, Bool-cases, inl, inr,
}
use place.Fragment.{Fragment, Ivl, cover}
use mathlib.Core.List.{append-nil}
use mathlib.Core.Path.{subst}
use native.Mathlib.Decide.{dec_lt}
use place.Fragment.Cover.{
  Source, hole, address, covers, hits, hits-append, Good, open_hits, IsOpen, left_all,
  left_all-hits, left_all-IsOpen, Reads, emitted_all, emitted_all-hits, emitted_all-Good,
  emitted_all-IsSpan, Cuts, emitted_all-Cuts, subtract_lem,
}

unfoldable pub first_cover : List Fragment → ℕ → Option Fragment
first_cover [] x = none
first_cover (f ∷ fs) x = if covers f x then some f else first_cover fs x

first_cover_here :
    (f : Fragment) (fs : List Fragment) (x : ℕ)
    → covers f x ≡ true
    → first_cover (f ∷ fs) x ≡ some f
unfolding first_cover
first_cover_here f fs x c = rw c

first_cover_skip :
    (f : Fragment) (fs : List Fragment) (x : ℕ)
    → covers f x ≡ false
    → first_cover (f ∷ fs) x ≡ first_cover fs x
unfolding first_cover
first_cover_skip f fs x n = rw n

abbrev pub source_of : Option Fragment → ℕ → Source
source_of none x = hole
source_of (some f) x = address f x

-- What stays of `n` uncovered bytes once the owner is known.
abbrev pub unless_owned : Option Fragment → ℕ → ℕ
unless_owned none n = n
unless_owned (some f) n = 0

Good-of_no_hits :
    {A : Type 0} (lo hi : A → ℕ) (src : A → ℕ → Source) (x : ℕ) (e : Source) (l : List A)
    → hits lo hi x l ≡ 0
    → Good lo hi src x e l
unfolding hits
Good-of_no_hits lo hi src x e [] h = tt
Good-of_no_hits lo hi src x e (a ∷ l) h =
    ((λ held. absurd (ground arith)), Good-of_no_hits lo hi src x e l (ground arith))

module _ {A : Type 0} {emit : Fragment → ℕ → ℕ → A} {lo hi : A → ℕ} {src : A → ℕ → Source}
    (r : Reads emit lo hi src) where
  cover-nil : (fs : List Fragment) (out : List A) → cover emit fs [] out ≡ (out, [])
  unfolding cover
  cover-nil [] out = refl
  cover-nil (f ∷ fs) out = refl

  cover_step :
      (f : Fragment) (fs : List Fragment) (us : List Ivl) (out : List A)
      → cover emit (f ∷ fs) us out ≡ cover emit fs (left_all f us) (out ++ emitted_all r f us)
  cover_step f fs [] out =
      unfold cover left_all emitted_all in rw append-nil (sym (cover-nil fs out))
  cover_step f fs (u ∷ us) out = unfold cover in rw (subtract_lem r f (u ∷ us) out [], cover)

  pub cover-IsOpen :
      (fs : List Fragment) (us : List Ivl) (out : List A)
      → All IsOpen us
      → All IsOpen (cover emit fs us out).1
  cover-IsOpen [] us out h = unfold cover in h
  cover-IsOpen (f ∷ fs) us out h =
      rw (cover_step f fs us out) (cover-IsOpen fs _ _ (left_all-IsOpen f us h))

  pub cover-open_hits :
      (fs : List Fragment) (us : List Ivl) (out : List A) (x : ℕ)
      → open_hits x (cover emit fs us out).1 ≡ unless_owned (first_cover fs x) (open_hits x us)
  cover-open_hits [] us out x = unfold cover first_cover in refl
  cover-open_hits (f ∷ fs) us out x =
      rw (cover_step f fs us out, cover-open_hits fs (left_all f us) (out ++ emitted_all r f us) x)
        (unfold first_cover in ground (arith, left_all-hits f us x))

  -- Each byte is as often in the output and the uncovered intervals after the loop as before it.
  pub cover-hits :
      (fs : List Fragment) (us : List Ivl) (out : List A) (x : ℕ)
      → All IsOpen us
      → hits lo hi x (cover emit fs us out).0 + open_hits x (cover emit fs us out).1
        ≡ hits lo hi x out + open_hits x us
  cover-hits [] us out x h = unfold cover in refl
  cover-hits (f ∷ fs) us out x h = rw (cover_step f fs us out) (
      ground (
        arith,
        cover-hits fs (left_all f us) (out ++ emitted_all r f us) x (left_all-IsOpen f us h),
        left_all-hits f us x,
        emitted_all-hits r f us x h,
        hits-append lo hi x out (emitted_all r f us),
      ))

  pub cover-IsSpan :
      (fs : List Fragment) (us : List Ivl) (out : List A)
      → All (λ f. 0 < f.length) fs
      → All IsOpen us
      → All (λ a. lo a < hi a) out
      → All (λ a. lo a < hi a) (cover emit fs us out).0
  cover-IsSpan [] us out p h k = unfold cover in k
  cover-IsSpan (f ∷ fs) us out p h k = rw (cover_step f fs us out) (
      cover-IsSpan fs _ _ p.1 (left_all-IsOpen f us h)
        (All-append _ out _ k (emitted_all-IsSpan r f us p.0 h)))

  pub cover-Cuts :
      (P : A → Type 0) (fs : List Fragment) (us : List Ivl) (out : List A)
      → All (λ f. (0 < f.length) × Cuts r P f) fs
      → All IsOpen us
      → All P out
      → All P (cover emit fs us out).0
  cover-Cuts P [] us out p h k = unfold cover in k
  cover-Cuts P (f ∷ fs) us out p h k = rw (cover_step f fs us out) (
      cover-Cuts P fs _ _ p.1 (left_all-IsOpen f us h)
        (All-append _ out _ k (emitted_all-Cuts r P f us p.0.1 p.0.0 h)))

  pub cover-Good :
      (fs : List Fragment) (us : List Ivl) (out : List A) (x : ℕ) (e : Source)
      → All IsOpen us
      → Good lo hi src x e out
      → (0 < open_hits x us → source_of (first_cover fs x) x ≡ e)
      → Good lo hi src x e (cover emit fs us out).0
  cover-Good [] us out x e h g own = unfold cover in g
  cover-Good (f ∷ fs) us out x e h g own = rw (cover_step f fs us out) (
      cover-Good fs (left_all f us) (out ++ emitted_all r f us) x e (left_all-IsOpen f us h)
        (All-append _ out _ g new) later)
    where
      later : 0 < open_hits x (left_all f us) → source_of (first_cover fs x) x ≡ e
      later pos = elim (Bool-cases (covers f x)) [
        | inl c ↦ absurd (ground (arith, left_all-hits f us x))
        | inr n ↦
            ap (λ o. source_of o x) (sym (first_cover_skip f fs x n))
            ∙ own (ground (arith, left_all-hits f us x))
      ]

      new : Good lo hi src x e (emitted_all r f us)
      new = elim (Bool-cases (covers f x)) [
        | inr n ↦
            Good-of_no_hits lo hi src x e (emitted_all r f us)
              (ground (arith, emitted_all-hits r f us x h))
        | inl c ↦ elim (dec_lt 0 (open_hits x us)) [
          | yes p ↦
              subst (λ d. Good lo hi src x d (emitted_all r f us))
                (ap (λ o. source_of o x) (sym (first_cover_here f fs x c)) ∙ own p)
                (emitted_all-Good r f us x)
          | no p ↦
              Good-of_no_hits lo hi src x e (emitted_all r f us)
                (ground (arith, emitted_all-hits r f us x h))
        ]
      ]
