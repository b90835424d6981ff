-- ===== src/Server/Refusals.antt =====
-- Only the check of the token answers 401.
use setrixdb.Base.{
  ◌==◌, ℕ, ◌≡◌, refl, false, not, Option, none, some, length, ltb, find_str, Bool-cases, inl, inr,
  Bool, List,
}
use setrixdb.Std.Strings.{Str, is_empty, trim_prefix, trim_suffix}
use setrixdb.Std.Strconv.{parse_uint}
use setrixdb.IdSet.{IdSet}
use setrixdb.Server.Request.{
  Request, Json, SetQuery, Response, Decoded, decoded, invalid, limit_body, parse_ids,
}
use setrixdb.Server.Disk.{SetStore, System}
use setrixdb.Server.Routes.{
  sets_prefix, has_path, Parts, parts, missing, parts_of, store_ids, put_decoded, put_set,
  answer_has, has_named, has_set, info_named, info_set, delete_named, delete_set, combine_parts,
  combine_decoded, combine_sets, list_sets,
}
use setrixdb.Server.Handler.{
  Endpoint, to_health, to_list, to_put, to_has, to_info, to_delete, to_combine, to_nothing,
  endpoint_of, serve_endpoint, handle_request,
}
use setrixdb.Server.Asking.{carries, is_refused-carries}

abbrev pub is_unauthorized : Response → Bool
is_unauthorized a = a.status == 401

module _ (os : System) (json : Json) (s : SetStore) where
  put_decoded-authorized :
      (name : Str) (ids : Decoded (List ℕ)) → is_unauthorized (put_decoded os s name ids).0 ≡ false
  unfolding put_decoded store_ids
  put_decoded-authorized name (invalid text) = refl
  put_decoded-authorized name (decoded ids) = refl

  put_set-authorized : (r : Request) → is_unauthorized (put_set os json s r).0 ≡ false
  unfolding put_set
  put_set-authorized r = elim (Bool-cases (is_empty (trim_prefix r.path sets_prefix))) [
    | inl e ↦ rw e refl
    | inr e ↦ rw e (put_decoded-authorized (trim_prefix r.path sets_prefix) (parse_ids json r))
  ]

  answer_has-authorized :
      (name : Str) (set : IdSet) (id : Option ℕ)
      → is_unauthorized (answer_has s name set id).0 ≡ false
  unfolding answer_has
  answer_has-authorized name set none = refl
  answer_has-authorized name set (some q) = refl

  has_named-authorized :
      (name : Str) (o : Option IdSet) (id : Str) → is_unauthorized (has_named s name o id).0 ≡ false
  unfolding has_named
  has_named-authorized name none id = refl
  has_named-authorized name (some set) id = answer_has-authorized name set (parse_uint id)

  info_named-authorized :
      (name : Str) (o : Option IdSet) → is_unauthorized (info_named s name o).0 ≡ false
  unfolding info_named
  info_named-authorized name none = refl
  info_named-authorized name (some set) = refl

  delete_named-authorized :
      (name : Str) (o : Option IdSet) → is_unauthorized (delete_named os s name o).0 ≡ false
  unfolding delete_named
  delete_named-authorized name none = refl
  delete_named-authorized name (some set) = refl

  combine_parts-authorized :
      (path : Str) (q : SetQuery) (found : Parts)
      → is_unauthorized (combine_parts s path q found).0 ≡ false
  unfolding combine_parts
  combine_parts-authorized path q (missing n) = refl
  combine_parts-authorized path q (parts sets) = refl

  combine_decoded-authorized :
      (path : Str) (q : Decoded SetQuery) → is_unauthorized (combine_decoded s path q).0 ≡ false
  unfolding combine_decoded
  combine_decoded-authorized path (invalid text) = refl
  combine_decoded-authorized path (decoded q) = elim (Bool-cases (ltb (length q.sets) 2)) [
    | inl e ↦ rw e refl
    | inr e ↦ rw e (combine_parts-authorized path q (parts_of s.sets q.sets))
  ]

  serve_endpoint-authorized :
      (r : Request) (e : Endpoint) → is_unauthorized (serve_endpoint os json s r e).0 ≡ false
  unfolding serve_endpoint list_sets has_set info_set delete_set combine_sets
  serve_endpoint-authorized r to_health = refl
  serve_endpoint-authorized r to_list = refl
  serve_endpoint-authorized r to_put = put_set-authorized r
  serve_endpoint-authorized r to_has =
      let name = trim_suffix (trim_prefix r.path sets_prefix) has_path in
      has_named-authorized name (find_str name s.sets) r.query_id
  serve_endpoint-authorized r to_info =
      let name = trim_prefix r.path sets_prefix in info_named-authorized name (find_str name s.sets)
  serve_endpoint-authorized r to_delete =
      let name = trim_prefix r.path sets_prefix in
      delete_named-authorized name (find_str name s.sets)
  serve_endpoint-authorized r to_combine =
      combine_decoded-authorized r.path (json.decode_query (limit_body r.body))
  serve_endpoint-authorized r to_nothing = refl

  -- A request is answered 401 exactly where it does not carry the token.
  pub is_unauthorized-handle_request :
      (r : Request)
      → is_unauthorized (handle_request os json s r).0 ≡ not (carries s.token r.authorization)
  unfolding handle_request
  is_unauthorized-handle_request r = elim (Bool-cases (carries s.token r.authorization)) [
    | inl e ↦ rw (is_refused-carries s.token r, e) (serve_endpoint-authorized r (endpoint_of r))
    | inr e ↦ rw (is_refused-carries s.token r, e) refl
  ]
