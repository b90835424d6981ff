-- ===== src/Server/Fixed.antt =====
-- No request changes the token or the directory of the data.
use setrixdb.Base.{
  ℕ, ◌≡◌, refl, true, Option, none, some, List, length, ltb, find_str, Bool-cases, inl, inr,
}
use setrixdb.Std.Strings.{Str, is_empty, trim_prefix, trim_suffix}
use setrixdb.Std.Strconv.{parse_uint}
use setrixdb.IdSet.{IdSet}
use setrixdb.Server.Request.{
  Request, Json, SetQuery, Decoded, decoded, invalid, limit_body, parse_ids,
}
use setrixdb.Server.Disk.{SetStore, System}
use setrixdb.Server.Routes.{
  sets_prefix, has_path, Parts, parts, missing, parts_of, store_ids, put_decoded, put_set,
  answer_has, has_named, has_set, info_named, info_set, delete_named, delete_set, combine_parts,
  combine_decoded, combine_sets, list_sets,
}
use setrixdb.Server.Handler.{
  Endpoint, to_health, to_list, to_put, to_has, to_info, to_delete, to_combine, to_nothing,
  endpoint_of, serve_endpoint, is_refused, handle_request,
}

abbrev pub IsFixed : SetStore → SetStore → Type 0
IsFixed s t = (t.token ≡ s.token) × (t.data_dir ≡ s.data_dir)

-- The files stay too.
abbrev pub IsUntouched : SetStore → SetStore → Type 0
IsUntouched s t = (t.files ≡ s.files) × IsFixed s t

module _ (os : System) (json : Json) (s : SetStore) where
  put_decoded-IsFixed :
      (name : Str) (ids : Decoded (List ℕ)) → IsFixed s (put_decoded os s name ids).1
  unfolding put_decoded store_ids
  put_decoded-IsFixed name (invalid text) = (refl, refl)
  put_decoded-IsFixed name (decoded ids) = (refl, refl)

  put_set-IsFixed : (r : Request) → IsFixed s (put_set os json s r).1
  unfolding put_set
  put_set-IsFixed r = elim (Bool-cases (is_empty (trim_prefix r.path sets_prefix))) [
    | inl e ↦ rw e (refl, refl)
    | inr e ↦ rw e (put_decoded-IsFixed (trim_prefix r.path sets_prefix) (parse_ids json r))
  ]

  answer_has-IsUntouched :
      (name : Str) (set : IdSet) (id : Option ℕ) → IsUntouched s (answer_has s name set id).1
  unfolding answer_has
  answer_has-IsUntouched name set none = (refl, (refl, refl))
  answer_has-IsUntouched name set (some q) = (refl, (refl, refl))

  pub has_named-IsUntouched :
      (name : Str) (o : Option IdSet) (id : Str) → IsUntouched s (has_named s name o id).1
  unfolding has_named
  has_named-IsUntouched name none id = (refl, (refl, refl))
  has_named-IsUntouched name (some set) id = answer_has-IsUntouched name set (parse_uint id)

  pub info_named-IsUntouched :
      (name : Str) (o : Option IdSet) → IsUntouched s (info_named s name o).1
  unfolding info_named
  info_named-IsUntouched name none = (refl, (refl, refl))
  info_named-IsUntouched name (some set) = (refl, (refl, refl))

  delete_named-IsFixed : (name : Str) (o : Option IdSet) → IsFixed s (delete_named os s name o).1
  unfolding delete_named
  delete_named-IsFixed name none = (refl, refl)
  delete_named-IsFixed name (some set) = (refl, refl)

  combine_parts-IsUntouched :
      (path : Str) (q : SetQuery) (found : Parts) → IsUntouched s (combine_parts s path q found).1
  unfolding combine_parts
  combine_parts-IsUntouched path q (missing n) = (refl, (refl, refl))
  combine_parts-IsUntouched path q (parts sets) = (refl, (refl, refl))

  pub combine_decoded-IsUntouched :
      (path : Str) (q : Decoded SetQuery) → IsUntouched s (combine_decoded s path q).1
  unfolding combine_decoded
  combine_decoded-IsUntouched path (invalid text) = (refl, (refl, refl))
  combine_decoded-IsUntouched path (decoded q) = elim (Bool-cases (ltb (length q.sets) 2)) [
    | inl e ↦ rw e (refl, (refl, refl))
    | inr e ↦ rw e (combine_parts-IsUntouched path q (parts_of s.sets q.sets))
  ]

  serve_endpoint-IsFixed : (r : Request) (e : Endpoint) → IsFixed s (serve_endpoint os json s r e).1
  unfolding serve_endpoint list_sets has_set info_set delete_set combine_sets
  serve_endpoint-IsFixed r to_health = (refl, refl)
  serve_endpoint-IsFixed r to_list = (refl, refl)
  serve_endpoint-IsFixed r to_put = put_set-IsFixed r
  serve_endpoint-IsFixed r to_has =
      let name = trim_suffix (trim_prefix r.path sets_prefix) has_path in
      (has_named-IsUntouched name (find_str name s.sets) r.query_id).1
  serve_endpoint-IsFixed r to_info =
      let name = trim_prefix r.path sets_prefix in
      (info_named-IsUntouched name (find_str name s.sets)).1
  serve_endpoint-IsFixed r to_delete =
      let name = trim_prefix r.path sets_prefix in delete_named-IsFixed name (find_str name s.sets)
  serve_endpoint-IsFixed r to_combine =
      (combine_decoded-IsUntouched r.path (json.decode_query (limit_body r.body))).1
  serve_endpoint-IsFixed r to_nothing = (refl, refl)

  pub handle_request-IsFixed :
      (r : Request)
      → ((handle_request os json s r).1.token ≡ s.token)
        × ((handle_request os json s r).1.data_dir ≡ s.data_dir)
  unfolding handle_request
  handle_request-IsFixed r = elim (Bool-cases (is_refused s.token r)) [
    | inl e ↦ rw e (refl, refl)
    | inr e ↦ rw e (serve_endpoint-IsFixed r (endpoint_of r))
  ]

  -- A refused request leaves the store as it is.
  pub handle_request-refused :
      (r : Request) → is_refused s.token r ≡ true → (handle_request os json s r).1 ≡ s
  unfolding handle_request
  handle_request-refused r e = rw e refl
