-- ===== src/Command/Answers.antt =====
-- What `build`, `has` and `intersect` answer.
use setrixdb.Base.{
  length, elem, IsStrict, Below, IsSorted-of_IsStrict, unique, elem-unique, unique-IsUnique,
  length_of_same_elems, IsUnique-of_IsStrict, u64_mod, str_eq_refl, ℕ, ◌≡◌, refl, sym, ap, ap₂, ◌∙◌,
  subst, Bool, true, false, ◌||◌, none, some, List, [], ◌∷◌,
}
use mathlib.Core.List.{append-nil}
use setrixdb.Std.Strings.{Str, is_empty}
use setrixdb.Std.Strconv.{format_uint}
use setrixdb.Std.Strconv.Laws.{parse_uint-format_uint}
use setrixdb.Addb.SetOps.Batch.{contains_sorted-elem}
use setrixdb.IdSet.{IdSet, new_set, sorted_ids, finalize}
use setrixdb.IdSet.Laws.{member-new_set, sorted_ids_lem}
use setrixdb.Persist.{FileSystem, ReadResult, loaded, failed, read_file}
use setrixdb.Persist.Reading.{read_file-write_file}
use setrixdb.Persist.Soundness.{read_file-IsStrict}
use setrixdb.Server.Storable.{AreStorable, new_set-AreStorable}
use setrixdb.Command.Lines.{ids_read, read_id_file}
use setrixdb.Command.Sets.{
  Files, write_set, SetRead, set_read, not_read, read_set, ids_of_result, done, put_file,
  build_from, build_written, cmd_build, has_arg, has_args, has_read, cmd_has,
}

ids_of_result-IsStrict :
    (result : ReadResult) (ids : List ℕ)
    → ((t : IdSet) → result ≡ loaded t → (t.sorted ≡ true) × IsStrict t.ids)
    → ids_of_result result ≡ set_read ids
    → IsStrict ids
unfolding ids_of_result
ids_of_result-IsStrict (failed e) ids h same = absurd (cc)
ids_of_result-IsStrict (loaded t) ids h same =
    let (strict, _, _, _) = sorted_ids_lem t (λ e. (h t refl).1) in
    subst IsStrict (set_read_inj same) strict
  where
    ids_in : SetRead → List ℕ
    ids_in (set_read xs) = xs
    ids_in (not_read e) = []

    set_read_inj : {xs ys : List ℕ} → set_read xs ≡ set_read ys → xs ≡ ys
    set_read_inj e = ap ids_in e

-- What is read as a set is strictly ascending.
pub read_set-IsStrict :
    (files : Files) (path : Str) (ids : List ℕ) → read_set files path ≡ set_read ids → IsStrict ids
unfolding read_set
read_set-IsStrict files path ids e =
    ids_of_result-IsStrict (read_file (files path)) ids (read_file-IsStrict (files path)) e

written_set :
    (fs : FileSystem) (ids content : List ℕ)
    → AreStorable ids
    → write_set fs ids ≡ some content
    → ids_of_result (read_file (some content)) ≡ set_read (sorted_ids (new_set ids)).0
unfolding write_set
written_set fs ids content storable e =
    let (valid, _) = member-new_set ids in
    let (below, short) = new_set-AreStorable ids storable in
    ap (λ c. ids_of_result (read_file (some c))) (sym (append-nil content))
    ∙ ap ids_of_result (read_file-write_file fs (new_set ids) content [] valid below short e)
    ∙ (unfold ids_of_result sorted_ids finalize in refl)

-- The IDs that are written, in decimal.
abbrev pub printed : List ℕ → List Str
printed [] = []
printed (v ∷ vs) = format_uint v ∷ printed vs

-- What `has` prints for the IDs, asked of a list.
abbrev pub found_in : List ℕ → List ℕ → List (ℕ × Bool)
found_in ids [] = []
found_in ids (v ∷ vs) = (v, elem v ids) ∷ found_in ids vs

has_args-printed :
    (ids vs : List ℕ)
    → IsStrict ids
    → Below u64_mod vs
    → has_args ids (printed vs) ≡ (found_in ids vs, none)
unfolding has_args has_arg
has_args-printed ids [] s h = refl
has_args-printed ids (v ∷ vs) s h =
    rw
      (
        parse_uint-format_uint v h.0,
        has_args-printed ids vs s h.1,
        contains_sorted-elem ids v (IsSorted-of_IsStrict ids s),
      )
      refl

module _ (fs : FileSystem) (files broken : Files) (out path : Str) (ids content : List ℕ)
    (named : (is_empty out || is_empty path) ≡ false)
    (read : read_id_file (files path) ≡ ids_read ids) (storable : AreStorable ids)
    (written : write_set fs ids ≡ some content) where
  built :
      (cmd_build fs files broken out path)
      ≡ build_written files broken out (length ids) (some content)
  unfolding cmd_build build_from
  built = rw (named, read, written) refl

  read_set-built :
      read_set (cmd_build fs files broken out path).1 out ≡ set_read (sorted_ids (new_set ids)).0
  unfolding read_set
  read_set-built = rw built (
      unfold build_written put_file in
      rw (str_eq_refl out) (written_set fs ids content storable written))

  -- `build` of a file of IDs, where the set can be written, reports the number of IDs read and the number of
  -- different ones.
  pub cmd_build-report :
      (cmd_build fs files broken out path).0
      ≡ done (record { raw = length ids; saved = length (unique ids) })
  cmd_build-report =
      let (valid, members) = member-new_set ids in
      let (strict, same, _, _) = sorted_ids_lem (new_set ids) valid in
      let count =
        length_of_same_elems (sorted_ids (new_set ids)).0 (unique ids)
          (IsUnique-of_IsStrict (sorted_ids (new_set ids)).0 strict) (unique-IsUnique ids)
          (λ q. same q ∙ members q ∙ sym (elem-unique q ids)) in
      rw built (
        unfold build_written put_file read_set in
        rw (str_eq_refl out, written_set fs ids content storable written, count) refl)

  -- After `build` of a file of IDs, where the set can be written, `has` on the set's file answers for each
  -- 64-bit ID in decimal whether it is among the IDs of the input.
  pub cmd_has-cmd_build :
      (v : ℕ) (vs : List ℕ)
      → Below u64_mod (v ∷ vs)
      → cmd_has (cmd_build fs files broken out path).1 (out ∷ printed (v ∷ vs))
        ≡ (found_in ids (v ∷ vs), none)
  unfolding cmd_has has_read
  cmd_has-cmd_build v vs h =
      let (valid, members) = member-new_set ids in
      let (strict, same, _, _) = sorted_ids_lem (new_set ids) valid in
      rw read_set-built (
        has_args-printed (sorted_ids (new_set ids)).0 (v ∷ vs) strict h
        ∙ ap (λ f. (f, none))
            (found_in-same (sorted_ids (new_set ids)).0 (v ∷ vs) (λ q. same q ∙ members q)))
    where
      found_in-same :
          (xs vs : List ℕ) → ((q : ℕ) → elem q xs ≡ elem q ids) → found_in xs vs ≡ found_in ids vs
      found_in-same xs [] h = refl
      found_in-same xs (v ∷ vs) h = ap₂ ◌∷◌ (ap (λ b. (v, b)) (h v)) (found_in-same xs vs h)
