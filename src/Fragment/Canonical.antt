-- ===== src/Fragment/Canonical.antt =====
-- canonicalView: the view holds each covered byte once, from the fragment that a read would use.
use place.Common.{
  ℕ, ◌+◌, ◌≤◌, ◌<◌, ◌≡◌, refl, sym, ap, ◌∙◌, List, [], ◌∷◌, Option, none, some, arith, All, ltb,
  if◌then◌else◌, Option-cases, inl, inr,
}
use place.Fragment.{
  Fragment, Ivl, frag_end, newer, sort_by, cover, clipped, fragment_before, min_off, max_end,
  canonical_sorted, canonical_view,
}
use place.Fragment.Cover.{Source, hole, at, address, hits, Good, open_hits, IsOpen, Reads}
use place.Fragment.Shadow.{
  first_cover, source_of, unless_owned, cover-open_hits, cover-hits, cover-Good,
}
use place.Fragment.Owner.{newest, first_cover-sort_by}
use place.Fragment.Tiles.{sort_by-All, sort_by-hits}

abbrev pub off_of : Fragment → ℕ
off_of f = f.logical_off

abbrev pub HasBytes : Fragment → Type 0
HasBytes f = 0 < f.length

abbrev pub owned : Option Fragment → ℕ
owned none = 0
owned (some f) = 1

reads : Reads clipped off_of frag_end address
unfolding address
reads = record {
  lo_emit = λ f s e. refl;
  hi_emit = λ f s e h. omega arith;
  src_emit = λ f s e x h k. ap (at f.tier f.segment_id) (omega arith);
}

min_off-le : (m : ℕ) (l : List Fragment) → min_off m l ≤ m
unfolding min_off
min_off-le m [] = omega arith
min_off-le m (f ∷ fs) =
    ground (arith, min_off-le (if ltb f.logical_off m then f.logical_off else m) fs)

le-max_end : (m : ℕ) (l : List Fragment) → m ≤ max_end m l
unfolding max_end
le-max_end m [] = omega arith
le-max_end m (f ∷ fs) = ground (arith, le-max_end (if ltb m (frag_end f) then frag_end f else m) fs)

-- The first interval holds every fragment of the list.
bounds-first_cover :
    (l : List Fragment) (m n x : ℕ) (f : Fragment)
    → first_cover l x ≡ some f
    → (min_off m l ≤ x) × (x < max_end n l)
unfolding first_cover min_off max_end
bounds-first_cover [] m n x f e = cc
bounds-first_cover (g ∷ gs) m n x f e = ground (
  arith,
  bounds-first_cover gs (if ltb g.logical_off m then g.logical_off else m)
      (if ltb n (frag_end g) then frag_end g else n) x f,
  min_off-le (if ltb g.logical_off m then g.logical_off else m) gs,
  le-max_end (if ltb n (frag_end g) then frag_end g else n) gs,
)

-- Held or uncovered is all that a byte of the extent can be.
settle :
    (o : Option Fragment) (held w : ℕ)
    → (owned o ≤ w) × (w ≤ 1)
    → held + unless_owned o w ≡ 0 + w
    → held ≡ owned o
settle none held w b e = omega arith
settle (some f) held w b e = omega arith

module _ (f : Fragment) (fs : List Fragment) where
  abbrev extent : Ivl
  extent = record { start = min_off f.logical_off fs; end = max_end (frag_end f) fs }

  extent-IsOpen : HasBytes f → IsOpen extent
  extent-IsOpen h = omega (arith, min_off-le f.logical_off fs, le-max_end (frag_end f) fs)

  extent-first_cover :
      (x : ℕ) (g : Fragment)
      → first_cover (f ∷ fs) x ≡ some g
      → (extent.start ≤ x) × (x < extent.end)
  unfolding first_cover
  extent-first_cover x g e = ground (
    arith,
    bounds-first_cover fs f.logical_off (frag_end f) x g,
    min_off-le f.logical_off fs,
    le-max_end (frag_end f) fs,
  )

  extent-hits :
      (x : ℕ)
      → (owned (first_cover (f ∷ fs) x) ≤ open_hits x (extent ∷ []))
        × (open_hits x (extent ∷ []) ≤ 1)
  extent-hits x = elim (Option-cases (first_cover (f ∷ fs) x)) [
    | inl n ↦ rw n (unfold open_hits hits in ground arith)
    | inr (g, e) ↦ rw e (unfold open_hits hits in ground (arith, extent-first_cover x g e))
  ]

  abbrev view : List Fragment
  view = (cover clipped (f ∷ fs) (extent ∷ []) []).0

  view-hits : (x : ℕ) → HasBytes f → hits off_of frag_end x view ≡ owned (first_cover (f ∷ fs) x)
  unfolding hits open_hits
  view-hits x h =
      settle (first_cover (f ∷ fs) x) (hits off_of frag_end x view) (open_hits x (extent ∷ []))
        (extent-hits x)
        (rw (cover-open_hits reads (f ∷ fs) (extent ∷ []) [] x) at
          (cover-hits reads (f ∷ fs) (extent ∷ []) [] x (extent-IsOpen h, tt)))

newest-Good :
    (l : List Fragment) (x : ℕ) (e : Source) (f : Fragment)
    → Good off_of frag_end address x e l
    → newest l x ≡ some f
    → address f x ≡ e
unfolding newest
newest-Good [] x e f g n = cc
newest-Good (h ∷ l) x e f g n = elim (Option-cases (newest l x)) [
  | inl s ↦ ground (arith, s, g.0)
  | inr (k, s) ↦ ground (arith, s, g.0, newest-Good l x e k g.1 s)
]

newest-hits : (l : List Fragment) (x : ℕ) → newest l x ≡ none → hits off_of frag_end x l ≡ 0
unfolding newest hits
newest-hits [] x n = refl
newest-hits (f ∷ l) x n = ground (arith, newest-hits l x)

hole_of_unowned : (o : Option Fragment) (x : ℕ) → owned o ≡ 0 → hole ≡ source_of o x
hole_of_unowned none x h = refl
hole_of_unowned (some f) x h = absurd (omega arith)

source-newest :
    (l : List Fragment) (o : Option Fragment) (x : ℕ)
    → Good off_of frag_end address x (source_of o x) l
    → hits off_of frag_end x l ≡ owned o
    → source_of (newest l x) x ≡ source_of o x
source-newest l o x g h = elim (Option-cases (newest l x)) [
  | inl n ↦ rw n (hole_of_unowned o x (sym h ∙ newest-hits l x n))
  | inr (k, s) ↦ rw s (newest-Good l x (source_of o x) k g s)
]

canonical_sorted-hits :
    (l : List Fragment) (x : ℕ)
    → All HasBytes l
    → hits off_of frag_end x (canonical_sorted l) ≡ owned (first_cover l x)
unfolding canonical_sorted
canonical_sorted-hits [] x h = unfold hits first_cover in refl
canonical_sorted-hits (f ∷ fs) x h =
    sort_by-hits off_of frag_end x (view f fs) ∙ view-hits f fs x h.0

canonical_sorted-Good :
    (l : List Fragment) (x : ℕ)
    → All HasBytes l
    → Good off_of frag_end address x (source_of (first_cover l x) x) (canonical_sorted l)
unfolding canonical_sorted
canonical_sorted-Good [] x h = tt
canonical_sorted-Good (f ∷ fs) x h = sort_by-All fragment_before _ (view f fs) (
    cover-Good reads (f ∷ fs) (extent f fs ∷ []) [] x _ (extent-IsOpen f fs h.0, tt) tt (λ _. refl))

-- The view holds a byte once if a fragment covers it, and not at all otherwise; every fragment has
-- a byte at least.
pub canonical_view-hits :
    (frags : List Fragment) (x : ℕ)
    → All HasBytes frags
    → hits off_of frag_end x (canonical_view frags) ≡ owned (newest frags x)
unfolding canonical_view
canonical_view-hits frags x h =
    canonical_sorted-hits (sort_by newer frags) x (sort_by-All newer _ frags h)
    ∙ ap owned (first_cover-sort_by frags x)

-- A byte read through the view comes from where a read of the fragments takes it, so the view can
-- replace them; every fragment has a byte at least.
pub newest-canonical_view :
    (frags : List Fragment) (x : ℕ)
    → All HasBytes frags
    → source_of (newest (canonical_view frags) x) x ≡ source_of (newest frags x) x
newest-canonical_view frags x h =
    source-newest (canonical_view frags) (newest frags x) x
      (unfold canonical_view in
        rw (← first_cover-sort_by frags x)
          (canonical_sorted-Good (sort_by newer frags) x (sort_by-All newer _ frags h)))
      (canonical_view-hits frags x h)
