-- ===== src/Command/Sets.antt =====
-- cmd/setrixdb/main.go: `normalize`, `humanBytes`, and the commands on set files. A file is what its path
-- holds; the values that package flag reads from the arguments come as arguments, and what is printed as a
-- value.
use setrixdb.Base.{
  ltb, leb, ◌==◌, if◌then◌else◌, length, get_or, set, take, str_eq, ℕ, zero, suc, ◌+◌, ◌-◌, ◌*◌,
  ◌/◌, Bool, false, ◌&&◌, ◌||◌, not, Option, none, some, List, [], ◌∷◌, ◌++◌, map,
}
use mathlib.Core.Option
use setrixdb.Std.Sort.{sort_slice}
use setrixdb.Std.Strings.{Str, is_empty, has_prefix}
use setrixdb.Std.Strconv.{parse_uint}
use setrixdb.Addb.SetOps.{contains_sorted, intersect_many}
use setrixdb.IdSet.{new_set, sorted_ids}
use setrixdb.Persist.{FileSystem, write_file, ReadError, ReadResult, loaded, failed, read_file}
use setrixdb.Keyer.{KeyerError}
use setrixdb.Command.Lines.{IdsRead, ids_read, bad_id, line_too_long, no_file, read_id_file}

abbrev pub Files : Type 0
Files = Str → Option (List ℕ)

-- `for i := range ids { if w == 0 || ids[i] != ids[w-1] { ids[w] = ids[i]; w++ } }`
unfoldable pub normalize_loop : ℕ → ℕ → ℕ → List ℕ → List ℕ
normalize_loop zero i w ids = take w ids
normalize_loop (suc left) i w ids =
    let kept = normalize_loop left (i + 1) (w + 1) (set ids w (get_or ids i 0)) in
    let same = normalize_loop left (i + 1) w ids in
    if w == 0 || not (get_or ids i 0 == get_or ids (w - 1) 0) then kept else same

unfoldable pub normalize : List ℕ → List ℕ
unfolding normalize_loop
normalize ids = let sorted = sort_slice ids in normalize_loop (length sorted) 0 0 sorted

-- `for n := b / u; n >= u; n /= u { div *= u; exp++ }`, with fuel.
unfoldable pub unit_loop : ℕ → ℕ → ℕ → ℕ → Option (ℕ × ℕ)
unit_loop zero n div exp = none
unit_loop (suc fuel) n div exp =
    let rest = unit_loop fuel (n / 1000) (div * 1000) (exp + 1) in
    if leb 1000 n then rest else some (div, exp)

-- The divisor and the place of its letter in "kMGTPE", or `none` for plain bytes. An int64 is below 1000 ^ 7, so six rounds are enough.
unfoldable pub human_unit : ℕ → Option (Option (ℕ × ℕ))
unfolding unit_loop
human_unit b =
    let unit = unit_loop 6 (b / 1000) 1000 0 in
    if ltb b 1000 then some none else Option.map some unit

-- `NewSet(ids...).WriteFile(path)`
unfoldable pub write_set : FileSystem → List ℕ → Option (List ℕ)
write_set fs ids = (write_file fs (new_set ids)).0

pub data SetRead : Type 0 where
  set_read : List ℕ → SetRead
  not_read : ReadError → SetRead

unfoldable pub ids_of_result : ReadResult → SetRead
ids_of_result (failed e) = not_read e
ids_of_result (loaded s) = set_read (sorted_ids s).0

unfoldable pub read_set : Files → Str → SetRead
unfolding ids_of_result
read_set files path = ids_of_result (read_file (files path))

pub data Failure : Type 0 where
  usage not_written unreadable_terms no_terms : Failure
  input : IdsRead → Failure
  unreadable_set : ReadError → Failure
  invalid_id : Str → Failure
  no_keyer : KeyerError → Failure

pub data Ended (A : Type 0) : Type 0 where
  done : A → Ended A
  fails : Failure → Ended A

-- What `build` prints: the IDs read, and those of the file as it is read back.
pub record BuildReport : Type 0 where
  pub raw : ℕ
  pub saved : ℕ

abbrev ids_or_none : SetRead → List ℕ
ids_or_none (set_read ids) = ids
ids_or_none (not_read e) = []

unfoldable pub put_file : Str → List ℕ → Files → Files
put_file path content files p = if str_eq path p then some content else files p

-- After the writing, or where it failed, with what that leaves of the files.
unfoldable pub build_written : Files → Files → Str → ℕ → Option (List ℕ) → Ended BuildReport × Files
unfolding put_file
build_written files broken out raw none = (fails not_written, broken)
build_written files broken out raw (some content) =
    let files' = put_file out content files in
    (done (record { raw = raw; saved = length (ids_or_none (read_set files' out)) }), files')

unfoldable pub build_from : FileSystem → Files → Files → Str → IdsRead → Ended BuildReport × Files
unfolding build_written
build_from fs files broken out (ids_read ids) =
    build_written files broken out (length ids) (write_set fs ids)
build_from fs files broken out (bad_id tok) = (fails (input (bad_id tok)), files)
build_from fs files broken out line_too_long = (fails (input line_too_long), files)
build_from fs files broken out no_file = (fails (input no_file), files)

unfoldable pub cmd_build : FileSystem → Files → Files → Str → Str → Ended BuildReport × Files
unfolding build_from read_id_file
cmd_build fs files broken out path =
    if is_empty out || is_empty path
    then (fails usage, files)
    else build_from fs files broken out (read_id_file (files path))

pub record InfoReport : Type 0 where
  pub members : ℕ
  pub memory : ℕ
  pub min_max : Option (ℕ × ℕ)

abbrev range_of : List ℕ → Option (ℕ × ℕ)
range_of [] = none
range_of (x ∷ xs) = some (x, get_or (x ∷ xs) (length xs) 0)

unfoldable pub info_read : SetRead → Ended InfoReport
info_read (not_read e) = fails (unreadable_set e)
info_read (set_read ids) =
    done (record { members = length ids; memory = length ids * 8; min_max = range_of ids })

unfoldable pub cmd_info : Files → List Str → Ended InfoReport
unfolding info_read
cmd_info files [] = fails usage
cmd_info files (path ∷ args) = info_read (read_set files path)

-- The lines that are printed for the IDs asked for, and the error that may end them.
unfoldable pub after_answer :
    ℕ × Bool → List (ℕ × Bool) × Option Failure → List (ℕ × Bool) × Option Failure
after_answer answer (answers, end) = (answer ∷ answers, end)

unfoldable pub has_arg :
    List ℕ → Str → Option ℕ → List (ℕ × Bool) × Option Failure → List (ℕ × Bool) × Option Failure
unfolding after_answer
has_arg ids a none rest = ([], some (invalid_id a))
has_arg ids a (some v) rest = after_answer (v, contains_sorted ids v) rest

unfoldable pub has_args : List ℕ → List Str → List (ℕ × Bool) × Option Failure
unfolding has_arg
has_args ids [] = ([], none)
has_args ids (a ∷ args) = has_arg ids a (parse_uint a) (has_args ids args)

unfoldable pub has_read : SetRead → List Str → List (ℕ × Bool) × Option Failure
unfolding has_args
has_read (not_read e) args = ([], some (unreadable_set e))
has_read (set_read ids) args = has_args ids args

unfoldable pub cmd_has : Files → List Str → List (ℕ × Bool) × Option Failure
unfolding has_read
cmd_has files [] = ([], some usage)
cmd_has files (path ∷ []) = ([], some usage)
cmd_has files (path ∷ a ∷ args) = has_read (read_set files path) (a ∷ args)

-- "--bench" and "-bench"
abbrev pub is_bench : Str → Bool
is_bench a =
    let bench = b'-' ∷ b'b' ∷ b'e' ∷ b'n' ∷ b'c' ∷ b'h' ∷ [] in
    str_eq a (b'-' ∷ bench) || str_eq a bench

-- The arguments of `intersect`, those for package flag and the files; the argument after `--bench` goes with
-- it.
unfoldable pub split_args : Bool → List Str → List Str × List Str
split_args after_bench [] = ([], [])
split_args after_bench (a ∷ args) =
    let (flags, files) = split_args (not after_bench && is_bench a) args in
    if after_bench || (is_bench a || has_prefix a (b'-' ∷ []))
    then (a ∷ flags, files)
    else (flags, a ∷ files)

pub data SetsRead : Type 0 where
  sets_read : List (List ℕ) → SetsRead
  one_not_read : ReadError → SetsRead

unfoldable pub add_set : SetRead → SetsRead → SetsRead
add_set (not_read e) rest = one_not_read e
add_set (set_read ids) (sets_read sets) = sets_read (ids ∷ sets)
add_set (set_read ids) (one_not_read e) = one_not_read e

unfoldable pub read_sets : Files → List Str → SetsRead
unfolding add_set
read_sets files [] = sets_read []
read_sets files (path ∷ paths) = add_set (read_set files path) (read_sets files paths)

-- What `intersect` prints: the sizes of the sets, the number of common IDs, and the IDs on demand.
pub record IntersectReport : Type 0 where
  pub sizes : List ℕ
  pub common : ℕ
  pub listed : Option (List ℕ)

unfoldable pub intersect_read : Bool → SetsRead → Ended IntersectReport
intersect_read list (one_not_read e) = fails (unreadable_set e)
intersect_read list (sets_read sets) =
    let res = intersect_many sets in
    done (record {
      sizes = map length sets;
      common = length res;
      listed = if list then some res else none;
    })

-- With what package flag makes of its arguments: whether `--list` is set, and what it leaves.
unfoldable pub cmd_intersect :
    (List Str → Bool × List Str) → Files → List Str → Ended IntersectReport
unfolding intersect_read split_args
cmd_intersect parse files args =
    let (flags, paths) = split_args false args in
    let (list, rest) = parse flags in
    if ltb (length (paths ++ rest)) 2
    then fails usage
    else intersect_read list (read_sets files (paths ++ rest))
