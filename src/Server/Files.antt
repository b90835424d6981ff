-- ===== src/Server/Files.antt =====
-- The files follow the catalogue, for each name whose file the calls of os serve.
use setrixdb.Base.{
  Bool-cases, set, str_eq, find_str, str_eq_refl, str_eq→≡, ℕ, ◌≡◌, refl, sym, ap, ◌∙◌, subst, inl,
  inr, true, false, Option, none, some, List, [],
}
use mathlib.Core.List.{append-nil}
use setrixdb.Std.Strings.{Str, is_empty, trim_prefix, trim_suffix}
use setrixdb.IdSet.{IdSet, new_set, sorted_ids}
use setrixdb.IdSet.Laws.{member-new_set, sorted_ids_lem}
use setrixdb.Persist.{write_file, read_file, loaded}
use setrixdb.Persist.Reading.{read_file-write_file}
use setrixdb.Server.Maps.{find-put_key, find-delete_key}
use setrixdb.Server.Request.{Request, Json, Decoded, decoded, invalid, parse_ids, limit_body}
use setrixdb.Server.Disk.{SetStore, System, persist, forget, after_write, file_of}
use setrixdb.Server.Routes.{
  sets_prefix, has_path, store_ids, put_decoded, put_set, has_set, info_set, delete_named,
  delete_set, has_named, info_named, combine_decoded, combine_sets, list_sets,
}
use setrixdb.Server.Handler.{
  Endpoint, to_health, to_list, to_put, to_has, to_info, to_delete, to_combine, to_nothing,
  endpoint_of, serve_endpoint, is_refused, handle_request,
}
use setrixdb.Server.Catalog.{Catalog, Change, put_change, effect_of, apply_change, Agrees, Holds}
use setrixdb.Server.Steps.{change_at, change_at-change_of, put_change_empty}
use setrixdb.Server.Fixed.{
  IsUntouched, has_named-IsUntouched, info_named-IsUntouched, combine_decoded-IsUntouched,
}
use setrixdb.Server.Storable.{AreStorable, parse_ids-AreStorable, new_set-AreStorable}

-- A file holds a list of IDs; where the catalogue has none, there is no file.
abbrev pub FileAgrees : Option (List ℕ) → Option (List ℕ) → Type 0
FileAgrees none none = Unit
FileAgrees none (some ids) = ⊥
FileAgrees (some content) none = ⊥
FileAgrees (some content) (some ids) =
    (set : IdSet) × (read_file (some content) ≡ loaded set) × Agrees (some set) (some ids)

-- The calls of os succeed for the file.
pub record Works (os : System) (file : Str) : Type 0 where
  pub makes : os.make_dir ≡ true
  pub writes :
      (set : IdSet) → (content : List ℕ) × ((write_file (os.file file) set).0 ≡ some content)
  pub removed : os.removes file ≡ true

-- The name of a change has its own file, unless it is the name itself.
abbrev pub IsApart : Str → Str → Change → Type 0
IsApart dir q none = Unit
IsApart dir q (some (n, v)) = str_eq (file_of dir n) (file_of dir q) ≡ str_eq n q

written-FileAgrees :
    (os : System) (file : Str) (ids content : List ℕ)
    → AreStorable ids
    → (write_file (os.file file) (new_set ids)).0 ≡ some content
    → FileAgrees (some content) (some ids)
written-FileAgrees os file ids content storable e =
    let (valid, members) = member-new_set ids in
    let (below, short) = new_set-AreStorable ids storable in
    let (strict, same, _, _) = sorted_ids_lem (new_set ids) valid in
    (
      record { ids = (sorted_ids (new_set ids)).0; sorted = true },
      ap (λ c. read_file (some c)) (sym (append-nil content))
          ∙ read_file-write_file (os.file file) (new_set ids) content [] valid below short e,
      (λ t. strict, λ x. same x ∙ members x),
    )

find-after_write :
    (os : System) (file other : Str) (content : Option (List ℕ)) (files : List (Str × List ℕ))
    → str_eq file other ≡ false
    → find_str other (after_write os file content files) ≡ find_str other files
unfolding after_write
find-after_write os file other none files e = os.broken_keeps file other files e
find-after_write os file other (some content) files e =
    rw (find-put_key other file content files, e) refl

module _ (os : System) (s : SetStore) (m : Catalog) (q : Str) (w : Works os (file_of s.data_dir q))
    (kept : is_empty s.data_dir ≡ false)
    (h : FileAgrees (find_str (file_of s.data_dir q) s.files) (m q)) where
  persist-FileAgrees :
      (n : Str) (ids : List ℕ)
      → IsApart s.data_dir q (some (n, some ids))
      → AreStorable ids
      → FileAgrees
          (find_str (file_of s.data_dir q) (persist os s n (new_set ids)).1)
          (apply_change (some (n, some ids)) m q)
  unfolding persist
  persist-FileAgrees n ids a storable = elim (Bool-cases (str_eq n q)) [
    | inl e ↦
        let (content, written) = w.writes (new_set ids) in
        rw (kept, w.makes, e, str_eq→≡ n q e, written)
          (unfold after_write in
            rw
              (
                find-put_key (file_of s.data_dir q) (file_of s.data_dir q) content s.files,
                str_eq_refl (file_of s.data_dir q),
              )
              (written-FileAgrees os (file_of s.data_dir q) ids content storable written))
    | inr e ↦
        rw
          (
            kept,
            w.makes,
            e,
            find-after_write os (file_of s.data_dir n) (file_of s.data_dir q)
                (write_file (os.file (file_of s.data_dir n)) (new_set ids)).0 s.files (a ∙ e),
          )
          h
  ]

  forget-FileAgrees :
      (n : Str)
      → IsApart s.data_dir q (some (n, none))
      → FileAgrees
          (find_str (file_of s.data_dir q) (forget os s n))
          (apply_change (some (n, none)) m q)
  unfolding forget
  forget-FileAgrees n a = elim (Bool-cases (str_eq n q)) [
    | inl e ↦
        rw
          (
            kept,
            e,
            str_eq→≡ n q e,
            w.removed,
            find-delete_key (file_of s.data_dir q) (file_of s.data_dir q) s.files,
            str_eq_refl (file_of s.data_dir q),
          )
          tt
    | inr e ↦
        rw (kept, e)
          (elim (Bool-cases (os.removes (file_of s.data_dir n))) [
            | inl f ↦
                rw (f, find-delete_key (file_of s.data_dir q) (file_of s.data_dir n) s.files, a ∙ e)
                  h
            | inr f ↦ rw f h
          ])
  ]

  put_decoded-FileAgrees :
      (n : Str) (ids : Decoded (List ℕ))
      → is_empty n ≡ false
      → IsApart s.data_dir q (put_change n ids)
      → ((xs : List ℕ) → ids ≡ decoded xs → AreStorable xs)
      → FileAgrees
          (find_str (file_of s.data_dir q) (put_decoded os s n ids).1.files)
          (apply_change (put_change n ids) m q)
  unfolding put_decoded store_ids
  put_decoded-FileAgrees n (invalid text) e a storable = h
  put_decoded-FileAgrees n (decoded ids) e a storable =
      rw e (persist-FileAgrees n ids (rw e at a) (storable ids refl))

  put_set-FileAgrees :
      (json : Json) (r : Request)
      → IsApart s.data_dir q (put_change (trim_prefix r.path sets_prefix) (parse_ids json r))
      → FileAgrees
          (find_str (file_of s.data_dir q) (put_set os json s r).1.files)
          (apply_change (put_change (trim_prefix r.path sets_prefix) (parse_ids json r)) m q)
  unfolding put_set
  put_set-FileAgrees json r a =
      let name = trim_prefix r.path sets_prefix in
      elim (Bool-cases (is_empty name)) [
        | inl e ↦ rw (e, put_change_empty name (parse_ids json r) e) h
        | inr e ↦
            rw e (put_decoded-FileAgrees name (parse_ids json r) e a (parse_ids-AreStorable json r))
      ]

  delete_named-FileAgrees :
      (n : Str) (o : Option IdSet)
      → Agrees o (m n)
      → IsApart s.data_dir q (some (n, none))
      → FileAgrees
          (find_str (file_of s.data_dir q) (delete_named os s n o).1.files)
          (apply_change (some (n, none)) m q)
  unfolding delete_named
  delete_named-FileAgrees n (some set) a apart = forget-FileAgrees n apart
  delete_named-FileAgrees n none a apart = elim (Bool-cases (str_eq n q)) [
    | inl e ↦ rw e (
        gone (find_str (file_of s.data_dir q) s.files) (m q)
          (subst (λ k. Agrees none (m k)) (str_eq→≡ n q e) a) h)
    | inr e ↦ rw e h
  ]
    where
      gone : (o v : Option (List ℕ)) → Agrees none v → FileAgrees o v → FileAgrees o none
      gone o none a f = f
      gone o (some ids) a f = absurd a

  same_files :
      (t : SetStore) → IsUntouched s t → FileAgrees (find_str (file_of s.data_dir q) t.files) (m q)
  same_files t e =
      subst (λ files. FileAgrees (find_str (file_of s.data_dir q) files) (m q)) (sym e.0) h

  serve_endpoint-FileAgrees :
      (json : Json) (r : Request) (e : Endpoint)
      → Holds s.sets m
      → IsApart s.data_dir q (change_at json r e)
      → FileAgrees
          (find_str (file_of s.data_dir q) (serve_endpoint os json s r e).1.files)
          (apply_change (change_at json r e) m q)
  unfolding serve_endpoint list_sets has_set info_set delete_set combine_sets
  serve_endpoint-FileAgrees json r to_health held a = h
  serve_endpoint-FileAgrees json r to_list held a = h
  serve_endpoint-FileAgrees json r to_put held a = put_set-FileAgrees json r a
  serve_endpoint-FileAgrees json r to_has held a =
      let name = trim_suffix (trim_prefix r.path sets_prefix) has_path in
      same_files (has_named s name (find_str name s.sets) r.query_id).1
        (has_named-IsUntouched os json s name (find_str name s.sets) r.query_id)
  serve_endpoint-FileAgrees json r to_info held a =
      let name = trim_prefix r.path sets_prefix in
      same_files (info_named s name (find_str name s.sets)).1
        (info_named-IsUntouched os json s name (find_str name s.sets))
  serve_endpoint-FileAgrees json r to_delete held a =
      let name = trim_prefix r.path sets_prefix in
      delete_named-FileAgrees name (find_str name s.sets) (held name) a
  serve_endpoint-FileAgrees json r to_combine held a =
      same_files (combine_decoded s r.path (json.decode_query (limit_body r.body))).1
        (combine_decoded-IsUntouched os json s r.path (json.decode_query (limit_body r.body)))
  serve_endpoint-FileAgrees json r to_nothing held a = h

  -- A request changes the file of the name as it changes the catalogue.
  pub handle_request-FileAgrees :
      (json : Json) (r : Request)
      → Holds s.sets m
      → IsApart s.data_dir q (effect_of json s.token r)
      → FileAgrees
          (find_str (file_of s.data_dir q) (handle_request os json s r).1.files)
          (apply_change (effect_of json s.token r) m q)
  unfolding handle_request
  handle_request-FileAgrees json r held a = elim (Bool-cases (is_refused s.token r)) [
    | inl e ↦ rw e h
    | inr e ↦
        let same = change_at-change_of json r in
        let apart : IsApart s.data_dir q (change_at json r (endpoint_of r)) =
          subst (IsApart s.data_dir q) (sym same) (rw e at a) in
        rw e (
          subst
            (λ c.
              FileAgrees
                (find_str (file_of s.data_dir q)
                  (serve_endpoint os json s r (endpoint_of r)).1.files)
                (apply_change c m q))
            same (serve_endpoint-FileAgrees json r (endpoint_of r) held apart))
  ]
