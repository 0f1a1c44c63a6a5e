-- ===== src/SegmentSet/Examples.antt =====
-- A set that is full, one that repairs its tail, and the theorems at them.
use place.Common.{List, ◌≡◌, refl, inl, inr, true, false, [], ◌∷◌, ◌++◌, some, arith, take}
use place.Segment.{Segment, RecordHeader, frame}
use place.Segment.Scan.{IsRecord, frames, written}
use place.SegmentSet.{
  SegmentSet, RotateFaults, ok, active_ctx, rotate, rotated, has_room, get_segment, delete_segment,
  open_segment, repair_segment,
}
use place.SegmentSet.Rotate.{IsValid, HasRoom, active_ctx-IsValid}
use place.SegmentSet.Open.{open_set, opened, open_loop, last, activated}
use place.Fragment.{sort_by, insert_by}
use place.SegmentSet.Repair.{repair_segment-frames}
use place.SegmentSet.Names.{DirEntry, seg_suffix, seg_file_name, listed_ids, listed_ids-Holds}
use place.Sizes.{digits}

abbrev no_faults : RotateFaults
no_faults = record { sync_fails = false; open_fails = false; fsync_dir_fails = false }

abbrev full_set : SegmentSet
full_set = record {
  tier = 2;
  max_size = 8;
  segments = record { id = 0; bytes = 1 ∷ 2 ∷ 3 ∷ []; size = 3 } ∷ [];
  active = some 0;
  next_id = 1;
  stray = [];
}

abbrev rotated_set : SegmentSet
rotated_set = record full_set {
  segments = record { id = 1; bytes = []; size = 0 } ∷ full_set.segments;
  active = some 1;
  next_id = 2;
}

full_set-IsValid : IsValid full_set
unfolding get_segment
full_set-IsValid = record { below = (omega arith, tt); active_open = refl }

rotates : active_ctx full_set 6 no_faults ≡ (rotated_set, ok 1)
unfolding active_ctx has_room get_segment rotate rotated open_segment delete_segment
rotates = refl

active_ctx-IsValid_example : IsValid rotated_set × HasRoom full_set rotated_set 6 1
active_ctx-IsValid_example =
    active_ctx-IsValid full_set rotated_set 6 no_faults 1 full_set-IsValid (omega arith) rotates

abbrev header : RecordHeader
header = record { inode = 2; stripe_id = 0; seq = 1; logical_off = 0; length = 2 }

header-IsRecord : IsRecord (header, 7 ∷ 9 ∷ [])
header-IsRecord = record {
  fits = record {
    inode_fits = omega arith;
    stripe_id_fits = omega arith;
    seq_fits = omega arith;
    logical_off_fits = omega arith;
    length_fits = omega arith;
  };
  sized = refl;
}

repair_segment-frames_example :
    repair_segment
      (written 0 (frames ((header, 7 ∷ 9 ∷ []) ∷ []) ++ take 45 (frame header (7 ∷ 9 ∷ []))))
    ≡ (written 0 (frames ((header, 7 ∷ 9 ∷ []) ∷ [])), ok tt)
repair_segment-frames_example =
    repair_segment-frames 0 45 ((header, 7 ∷ 9 ∷ []) ∷ []) header (7 ∷ 9 ∷ []) (header-IsRecord, tt)
      header-IsRecord (omega arith)

abbrev reopened_set : SegmentSet
reopened_set = record {
  tier = 2;
  max_size = 8;
  segments =
      record { id = 4; bytes = []; size = 0 } ∷ record { id = 0; bytes = 1 ∷ []; size = 1 } ∷ [];
  active = some 4;
  next_id = 5;
  stray = [];
}

abbrev files : List Segment
files = record { id = 4; bytes = []; size = 0 } ∷ record { id = 0; bytes = 1 ∷ []; size = 1 } ∷ []

opens : open_set 2 8 files (4 ∷ 0 ∷ []) (λ id. false) ≡ ok reopened_set
unfolding open_set opened open_loop last activated sort_by insert_by open_segment delete_segment
    get_segment
opens = refl

-- A segment file, a directory, and a file that is named for no id.
abbrev entries : List DirEntry
entries =
    record { name = seg_file_name 3; is_dir = false }
    ∷ record { name = seg_file_name 9; is_dir = true }
    ∷ record { name = seg_file_name 0; is_dir = false }
    ∷ record { name = b'x' ∷ []; is_dir = false }
    ∷ []

listed_ids-Holds_example : listed_ids entries ≡ 3 ∷ 0 ∷ []
listed_ids-Holds_example = listed_ids-Holds entries (3 ∷ 0 ∷ []) (
    inr (
      3,
      0 ∷ [],
      refl,
      omega arith,
      refl,
      refl,
      inl (refl, inr (0, [], refl, omega arith, refl, refl, inl (refl, refl))),
    ))

padded :
    seg_file_name 37
    ≡ b'0' ∷ b'0' ∷ b'0' ∷ b'0' ∷ b'0' ∷ b'0' ∷ b'0' ∷ b'0' ∷ b'3' ∷ b'7' ∷ seg_suffix
unfolding seg_file_name digits
padded = refl
