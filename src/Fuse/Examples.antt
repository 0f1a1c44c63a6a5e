-- ===== src/Fuse/Examples.antt =====
-- A file that is unlinked through the kernel's protocol, its attributes, and three samples.
use place.Common.{ℕ, ◌≡◌, refl, ap, true, [], ◌∷◌, Option, none, arith}
use place.Errors.{Error}
use place.Kv.{Bytes}
use place.Kv.Memory.{memory_laws}
use place.Store.Examples.{file, file_node, with_file, without_file, has_file, has_node, unlinks}
use place.Fuse.{done, fails, reply_to, no_value, lookup, unlink}
use place.Fuse.Metrics.{Sample, observe, observe_all, row_of, bump}
use place.Kv.Entries.{bytes_eq}
use place.Fuse.Answers.{unlink-lookup}

abbrev no_os : Error → Option ℕ
no_os e = none

unlink_answers : unlink no_os with_file 1 file 11 ≡ (without_file, done tt)
unfolding unlink
unlink_answers = ap (reply_to no_os no_value) unlinks

unlink-lookup_example : lookup no_os without_file 1 file ≡ fails 2
unlink-lookup_example =
    unlink-lookup memory_laws no_os with_file without_file 1 file 11 2 file_node (omega arith)
      (omega arith) (omega arith, tt) has_file has_node unlink_answers

abbrev read_op : Bytes
read_op = b'r' ∷ []

abbrev sample : ℕ → Sample
sample d = record { op = read_op; duration = d; failed = true }

-- Two calls that failed, of 3 and 4.
read_row :
    row_of (observe_all [] (sample 3 ∷ sample 4 ∷ [])) read_op
    ≡ record { calls = 2; errors = 2; duration = 7 }
unfolding row_of observe_all observe bump bytes_eq
read_row = refl
