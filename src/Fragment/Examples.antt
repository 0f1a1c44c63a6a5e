-- ===== src/Fragment/Examples.antt =====
-- Runs of planRead and canonicalView on two overlapping fragments, and the theorems at them.
use place.Common.{◌≡◌, refl, List, [], ◌∷◌, some, arith, map}
use place.Fragment.{
  Fragment, frag_end, plan_read, canonical_view, sort_by, cover, subtract, emitted, left_over,
  canonical_sorted, min_off, max_end,
}
use place.Fragment.Cover.{hits}
use place.Fragment.Shadow.{source_of}
use place.Fragment.Owner.{newest}
use place.Fragment.Tiles.{Tiles}
use place.Fragment.Plan.{slice_lo, slice_hi, resolve, plan_read-Tiles, resolve-plan_read}
use place.Fragment.Canonical.{off_of, owned, canonical_view-hits, newest-canonical_view}

-- [0, 10) written first, then [4, 6) over it.
abbrev old_write : Fragment
old_write = record {
  seq = 1;
  logical_off = 0;
  length = 10;
  tier = 2;
  segment_id = 3;
  segment_offset = 40;
}

abbrev new_write : Fragment
new_write = record {
  seq = 2;
  logical_off = 4;
  length = 2;
  tier = 1;
  segment_id = 0;
  segment_offset = 84;
}

abbrev writes : List Fragment
writes = old_write ∷ new_write ∷ []

-- The slices of a read of [2, 14): old, new, old, and a hole at the end.
plan_of_writes : map slice_lo (plan_read writes 2 12) ≡ 2 ∷ 4 ∷ 6 ∷ 10 ∷ []
unfolding plan_read sort_by cover subtract emitted left_over
plan_of_writes = refl

view_of_writes : map frag_end (canonical_view writes) ≡ 4 ∷ 6 ∷ 10 ∷ []
unfolding canonical_view canonical_sorted sort_by cover subtract emitted left_over min_off max_end
view_of_writes = refl

plan_read-Tiles_example : Tiles slice_lo slice_hi (plan_read writes 2 12) 2 14
plan_read-Tiles_example = plan_read-Tiles writes 2 12 (omega arith)

resolve-plan_read_example : resolve (plan_read writes 2 12) 5 ≡ some (source_of (newest writes 5) 5)
resolve-plan_read_example = resolve-plan_read writes 2 12 5 (omega arith) (omega arith)

canonical_view-hits_example :
    hits off_of frag_end 5 (canonical_view writes) ≡ owned (newest writes 5)
canonical_view-hits_example = canonical_view-hits writes 5 (omega arith)

newest-canonical_view_example :
    source_of (newest (canonical_view writes) 7) 7 ≡ source_of (newest writes 7) 7
newest-canonical_view_example = newest-canonical_view writes 7 (omega arith)
