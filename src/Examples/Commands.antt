-- ===== src/Examples/Commands.antt =====
-- The command line on files in memory.
use setrixdb.Base.{
  length, elem, IsStrict, ℕ, ◌≡◌, refl, Bool, true, none, some, List, [], ◌∷◌, ◌++◌, arith,
}
use setrixdb.Examples.Files.{in_memory, file_bytes}
use setrixdb.Std.Endian.{get_le}
use setrixdb.Addb.SetOps.Merge.{in_all}
use setrixdb.Std.Strings.{Str, has_prefix}
use setrixdb.IdSet.{new_set, sorted_ids, finalize}
use setrixdb.Persist.{read_file}
use setrixdb.Persist.Writing.{write_file-some}
use setrixdb.Mphf.Build.{Sizes}
use setrixdb.Command.Lines.{ids_read, read_id_file}
use setrixdb.Command.Sets.{
  Files, write_set, cmd_build, cmd_has, read_set, read_sets, sets_read, split_args, human_unit,
  done, cmd_intersect,
}
use setrixdb.Command.Reading.{lines_of, read_id_file-lines_of}
use setrixdb.Command.Units.{IsUnit, human_unit-IsUnit}
use setrixdb.Command.Answers.{printed, found_in, cmd_has-cmd_build}
use setrixdb.Command.Intersecting.{paths_of, cmd_intersect-in_all}

read_id_file-lines_of_example :
    read_id_file (some (lines_of (12 ∷ 3 ∷ []))) ≡ ids_read (12 ∷ 3 ∷ [])
read_id_file-lines_of_example = read_id_file-lines_of (12 ∷ 3 ∷ []) (omega arith)

human_unit-IsUnit_example : IsUnit 1234567 (human_unit 1234567)
human_unit-IsUnit_example = human_unit-IsUnit 1234567 (omega arith)

abbrev input : Str
input = b'i' ∷ []

abbrev output : Str
output = b'o' ∷ []

abbrev some_ids : List ℕ
some_ids = 12 ∷ 3 ∷ 12 ∷ []

-- Every path holds the same IDs as text.
abbrev texts : Files
texts path = some (lines_of some_ids)

written : (content : List ℕ) × (write_set in_memory some_ids ≡ some content)
unfolding write_set
written =
    write_file-some in_memory ([], refl) (λ w bytes. (w ++ bytes, refl)) (λ w. (w, refl))
      (new_set some_ids)

cmd_has-cmd_build_example :
    cmd_has (cmd_build in_memory texts texts output input).1 (output ∷ printed (3 ∷ 4 ∷ []))
    ≡ (found_in some_ids (3 ∷ 4 ∷ []), none)
cmd_has-cmd_build_example =
    cmd_has-cmd_build in_memory texts texts output input some_ids written.0 refl
      (read_id_file-lines_of some_ids (omega arith)) (omega arith) written.1 3 (4 ∷ [])
      (omega arith)

-- Every path holds the set of 3 and 258.
abbrev stored_sets : Files
stored_sets path = some file_bytes

abbrev listing : List Str → Bool × List Str
listing flags = (true, [])

abbrev arguments : List Str
arguments = (b'a' ∷ []) ∷ (b'-' ∷ b'l' ∷ []) ∷ (b'b' ∷ []) ∷ []

two_paths : paths_of listing arguments ≡ (b'a' ∷ []) ∷ (b'b' ∷ []) ∷ []
unfolding split_args has_prefix
two_paths = refl

two_sets :
    read_sets stored_sets (paths_of listing arguments)
    ≡ sets_read ((3 ∷ 258 ∷ []) ∷ (3 ∷ 258 ∷ []) ∷ [])
unfolding read_sets read_set read_file get_le sorted_ids finalize
two_sets = rw two_paths refl

cmd_intersect-in_all_example :
    (res : List ℕ) × IsStrict res
    × ((q : ℕ) → elem q res ≡ in_all q ((3 ∷ 258 ∷ []) ∷ (3 ∷ 258 ∷ []) ∷ []))
    × (cmd_intersect listing stored_sets arguments
        ≡ done (record { sizes = 2 ∷ 2 ∷ []; common = length res; listed = some res }))
cmd_intersect-in_all_example =
    cmd_intersect-in_all listing stored_sets arguments (3 ∷ 258 ∷ []) (3 ∷ 258 ∷ []) [] two_sets
      (rw two_paths (omega arith))

abbrev plain_sizes : Sizes
plain_sizes = record { arrange = λ order. order; buckets = λ n. n; table = λ n. n }

-- "ab", a comment, and "c".
abbrev term_file : Files
term_file path = some (b'a' ∷ b'b' ∷ b'\n' ∷ b'#' ∷ b'\n' ∷ b' ' ∷ b'c' ∷ b'\r' ∷ b'\n' ∷ [])
