-- ===== src/Command/Intersecting.antt =====
-- What `intersect` prints.
use setrixdb.Base.{
  ltb, if◌then◌else◌, length, elem, IsStrict, ℕ, ◌≤◌, ◌≡◌, refl, subst, Bool, true, false, none,
  some, List, [], ◌∷◌, ◌++◌, map, arith,
}
use setrixdb.Std.Strings.{Str, has_prefix}
use setrixdb.Addb.SetOps.{intersect_many}
use setrixdb.Addb.SetOps.Merge.{
  in_all, AllStrict, AllSorted-of_AllStrict, elem-intersect_many, intersect_many-IsStrict,
}
use setrixdb.Command.Sets.{
  Files, SetRead, set_read, not_read, read_set, done, split_args, is_bench, SetsRead, sets_read,
  one_not_read, add_set, read_sets, intersect_read, cmd_intersect,
}
use setrixdb.Command.Answers.{read_set-IsStrict}

sets_in : SetsRead → List (List ℕ)
sets_in (sets_read sets) = sets
sets_in (one_not_read e) = []

AllRead : SetsRead → Type 0
AllRead (sets_read sets) = AllStrict sets
AllRead (one_not_read e) = Unit

add_set-AllRead :
    (read : SetRead) (rest : SetsRead)
    → ((ids : List ℕ) → read ≡ set_read ids → IsStrict ids)
    → AllRead rest
    → AllRead (add_set read rest)
unfolding AllRead add_set
add_set-AllRead (not_read e) rest h a = tt
add_set-AllRead (set_read ids) (sets_read sets) h a = (h ids refl, a)
add_set-AllRead (set_read ids) (one_not_read e) h a = tt

read_sets-AllRead : (files : Files) (paths : List Str) → AllRead (read_sets files paths)
unfolding read_sets
read_sets-AllRead files [] = unfold AllRead in tt
read_sets-AllRead files (path ∷ paths) =
    add_set-AllRead (read_set files path) (read_sets files paths) (read_set-IsStrict files path)
      (read_sets-AllRead files paths)

AllStrict-of_read :
    (files : Files) (paths : List Str) (sets : List (List ℕ))
    → read_sets files paths ≡ sets_read sets
    → AllStrict sets
AllStrict-of_read files paths sets e =
    unfold AllRead in subst AllRead e (read_sets-AllRead files paths)

-- The files of `intersect`: the arguments that are no flags, and what package flag leaves of the others.
abbrev pub paths_of : (List Str → Bool × List Str) → List Str → List Str
paths_of parse args = (split_args false args).1 ++ (parse (split_args false args).0).1

-- `intersect` of two files or more that can be read reports their sizes and the number, and on demand the
-- ascending list, of exactly the IDs that are in all of them.
pub cmd_intersect-in_all :
    (parse : List Str → Bool × List Str) (files : Files) (args : List Str) (acc next : List ℕ)
    (sets : List (List ℕ))
    → read_sets files (paths_of parse args) ≡ sets_read (acc ∷ next ∷ sets)
    → 2 ≤ length (paths_of parse args)
    → (res : List ℕ) × IsStrict res
      × ((q : ℕ) → elem q res ≡ in_all q (acc ∷ next ∷ sets))
      × (cmd_intersect parse files args
          ≡ done (record {
            sizes = map length (acc ∷ next ∷ sets);
            common = length res;
            listed = if (parse (split_args false args).0).0 then some res else none;
          }))
unfolding cmd_intersect
cmd_intersect-in_all parse files args acc next sets e two =
    let strict = AllStrict-of_read files (paths_of parse args) (acc ∷ next ∷ sets) e in
    let many : ltb (length (paths_of parse args)) 2 ≡ false = ground arith in
    (
      intersect_many (acc ∷ next ∷ sets),
      intersect_many-IsStrict (acc ∷ next ∷ sets) strict,
      λ q.
          elem-intersect_many q acc (next ∷ sets)
            (AllSorted-of_AllStrict (acc ∷ next ∷ sets) strict),
      rw (many, e) (unfold intersect_read in refl),
    )

-- A flag that takes no value changes only what package flag gets, wherever it stands but behind `--bench`.
pub split_args_flag :
    (flag : Str) (args : List Str)
    → is_bench flag ≡ false
    → has_prefix flag (b'-' ∷ []) ≡ true
    → split_args false (flag ∷ args) ≡ (flag ∷ (split_args false args).0, (split_args false args).1)
unfolding split_args
split_args_flag flag args e f = rw (e, f) refl
