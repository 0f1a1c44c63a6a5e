-- ===== src/Handle/Slice.antt =====
-- The plan of a read that lies inside one fragment.
use place.Common.{
  ℕ, ◌+◌, ◌≤◌, ◌<◌, ◌≡◌, [], ◌∷◌, arith, ltb, ltb_of_le, leb_of_lt, ==_zero, if◌then◌else◌,
}
use place.Fragment.{
  Fragment, Ivl, plan_read, sort_by, cover, subtract, emitted, left_over, read_slice, frag_end,
}

module _ (f : Fragment) (off len : ℕ) (lo : f.logical_off ≤ off) (hi : off + len ≤ frag_end f) where
  abbrev wanted : Ivl
  wanted = record { start = off; end = off + len }

  starts : (if ltb f.logical_off off then off else f.logical_off) ≡ off
  starts = ground arith

  ends : (if ltb (off + len) (frag_end f) then off + len else frag_end f) ≡ off + len
  ends = ground arith

  emitted_one : 0 < len → emitted read_slice f wanted ≡ read_slice f off (off + len) ∷ []
  unfolding emitted
  emitted_one pos = rw (
    leb_of_lt (frag_end f) off (omega arith),
    leb_of_lt (off + len) f.logical_off (omega arith),
    starts,
    ends,
  )

  left_over_one : 0 < len → left_over f wanted ≡ []
  unfolding left_over
  left_over_one pos = rw (
    leb_of_lt (frag_end f) off (omega arith),
    leb_of_lt (off + len) f.logical_off (omega arith),
    starts,
    ends,
    ltb_of_le off off (omega arith),
    ltb_of_le (off + len) (off + len) (omega arith),
  )

-- A read inside one fragment has a plan of one slice.
pub plan_read_one :
    (f : Fragment) (off len : ℕ)
    → f.logical_off ≤ off
    → 0 < len
    → off + len ≤ frag_end f
    → plan_read (f ∷ []) off len ≡ read_slice f off (off + len) ∷ []
unfolding plan_read sort_by cover subtract
plan_read_one f off len lo pos hi =
    rw (==_zero len pos, emitted_one f off len lo hi pos, left_over_one f off len lo hi pos)
