-- ===== src/Server/Loading.antt =====
-- What `loadFromDisk` puts under a name.
use setrixdb.Base.{
  if◌then◌else◌, Bool-cases, Bool-ext, set, str_eq, has_str, find_str, AreUnique, str_eq_refl,
  str_eq→≡, ℕ, ◌≡◌, refl, sym, ap, ◌∙◌, subst, inl, inr, true, false, Option, none, some, List, [],
  ◌∷◌, ◌++◌, arith,
}
use setrixdb.Std.Strings.{Str, has_suffix, trim_suffix}
use setrixdb.Std.Strings.Laws.{has_suffix-append, trim_suffix-append, has_suffix-cut}
use setrixdb.IdSet.{IdSet}
use setrixdb.Persist.{ReadResult, read_file, loaded, failed}
use setrixdb.Server.Maps.{find-put_key}
use setrixdb.Server.Disk.{DirEntry, extension, load_entry, load_entries, keep_loaded}

abbrev pub entry_names : List DirEntry → List Str
entry_names [] = []
entry_names (e ∷ entries) = e.entry_name ∷ entry_names entries

-- What can be read of the file, where the directory has it.
abbrev pub listed_content : Str → List DirEntry → Option (List ℕ)
listed_content file [] = none
listed_content file (e ∷ entries) =
    if str_eq e.entry_name file
    then (if e.is_dir then none else e.content)
    else listed_content file entries

unfoldable pub or_kept : ReadResult → Option IdSet → Option IdSet
or_kept (loaded set) o = some set
or_kept (failed e) o = o

find-keep_loaded :
    (q name : Str) (result : ReadResult) (sets : List (Str × IdSet))
    → find_str q (keep_loaded name result sets)
      ≡ (if str_eq name q then or_kept result (find_str q sets) else find_str q sets)
unfolding keep_loaded or_kept
find-keep_loaded q name (failed e) sets = elim (Bool-cases (str_eq name q)) [
  | inl f ↦ rw f refl
  | inr f ↦ rw f refl
]
find-keep_loaded q name (loaded set) sets = find-put_key q name set sets

named-extension :
    (s q : Str)
    → has_suffix s extension ≡ true
    → str_eq (trim_suffix s extension) q ≡ str_eq s (q ++ extension)
named-extension s q h =
    Bool-ext (str_eq (trim_suffix s extension) q) (str_eq s (q ++ extension))
      (λ e.
        let same : s ≡ q ++ extension =
          sym (has_suffix-cut s extension h)
          ∙ ap (λ t. t ++ extension) (str_eq→≡ (trim_suffix s extension) q e) in
        subst (λ t. str_eq t (q ++ extension) ≡ true) (sym same) (str_eq_refl (q ++ extension)))
      (λ e.
        let same : trim_suffix s extension ≡ q =
          ap (λ t. trim_suffix t extension) (str_eq→≡ s (q ++ extension) e)
          ∙ trim_suffix-append q extension in
        subst (λ t. str_eq t q ≡ true) (sym same) (str_eq_refl q))

other-extension : (s q : Str) → has_suffix s extension ≡ false → str_eq s (q ++ extension) ≡ false
other-extension s q h = elim (Bool-cases (str_eq s (q ++ extension))) [
  | inl e ↦ absurd (
      true_ne_false (
        sym (has_suffix-append q extension)
        ∙ ap (λ t. has_suffix t extension) (sym (str_eq→≡ s (q ++ extension) e))
        ∙ h))
  | inr e ↦ e
]
  where
    true_ne_false : true ≡ false → ⊥
    true_ne_false e = cc

find-load_entry :
    (q : Str) (e : DirEntry) (sets : List (Str × IdSet))
    → find_str q (load_entry e sets) ≡ (
        if str_eq e.entry_name (q ++ extension)
        then or_kept (read_file (if e.is_dir then none else e.content)) (find_str q sets)
        else find_str q sets)
unfolding load_entry
find-load_entry q e sets = elim (Bool-cases e.is_dir) [
  | inl d ↦ rw d (elim (Bool-cases (str_eq e.entry_name (q ++ extension))) [
    | inl f ↦ rw f (unfold read_file or_kept in refl)
    | inr f ↦ rw f refl
  ])
  | inr d ↦ elim (Bool-cases (has_suffix e.entry_name extension)) [
    | inl x ↦
        rw
          (
            d,
            x,
            find-keep_loaded q (trim_suffix e.entry_name extension) (read_file e.content) sets,
            named-extension e.entry_name q x,
          )
          refl
    | inr x ↦ rw (d, x, other-extension e.entry_name q x) refl
  ]
]

find-load_entries_other :
    (q : Str) (entries : List DirEntry) (sets : List (Str × IdSet))
    → has_str (q ++ extension) (entry_names entries) ≡ false
    → find_str q (load_entries entries sets) ≡ find_str q sets
unfolding load_entries
find-load_entries_other q [] sets h = refl
find-load_entries_other q (e ∷ entries) sets h =
    let here : str_eq e.entry_name (q ++ extension) ≡ false = ground (arith, h) in
    let rest : has_str (q ++ extension) (entry_names entries) ≡ false = ground (arith, h) in
    find-load_entries_other q entries (load_entry e sets) rest
    ∙ find-load_entry q e sets
    ∙ rw here refl

-- Of a directory whose entries have different names, each file is read into the set of its name.
pub find-load_entries :
    (q : Str) (entries : List DirEntry) (sets : List (Str × IdSet))
    → AreUnique (entry_names entries)
    → find_str q (load_entries entries sets)
      ≡ or_kept (read_file (listed_content (q ++ extension) entries)) (find_str q sets)
unfolding load_entries
find-load_entries q [] sets u = unfold read_file or_kept in refl
find-load_entries q (e ∷ entries) sets u =
    elim (Bool-cases (str_eq e.entry_name (q ++ extension))) [
      | inl f ↦
          let other : has_str (q ++ extension) (entry_names entries) ≡ false =
            subst (λ t. has_str t (entry_names entries) ≡ false)
              (str_eq→≡ e.entry_name (q ++ extension) f) u.0 in
          find-load_entries_other q entries (load_entry e sets) other
          ∙ find-load_entry q e sets
          ∙ rw f refl
      | inr f ↦
          let step : find_str q (load_entry e sets) ≡ find_str q sets =
            find-load_entry q e sets ∙ rw f refl in
          find-load_entries q entries (load_entry e sets) u.1
          ∙ ap (or_kept (read_file (listed_content (q ++ extension) entries))) step
          ∙ rw f refl
    ]
