-- ===== src/Server/Changing.antt =====
-- What PUT and DELETE answer.
use setrixdb.Base.{
  if◌then◌else◌, Bool-cases, length, unique, find_str, ℕ, ◌≡◌, refl, ap, ◌∙◌, inl, inr, Bool, true,
  false, not, Option, none, some, List, [],
}
use setrixdb.Std.Strings.{Str, is_empty, has_prefix, trim_prefix}
use setrixdb.IdSet.{IdSet, new_set}
use setrixdb.Server.Request.{
  Request, Json, Decoded, decoded, invalid, parse_ids, Response, write_json, err_json, stored,
  deleted, name_required, invalid_body, unknown_set,
}
use setrixdb.Server.Disk.{SetStore, System, persist}
use setrixdb.Server.Routes.{
  put_method, delete_method, put_set, put_decoded, store_ids, delete_set, delete_named,
}
use setrixdb.Server.Handler.{endpoint_of, serve_endpoint, is_refused, handle_request}
use setrixdb.Server.Catalog.{Catalog, Agrees, Holds}
use setrixdb.Server.Keeping.{Agrees-new_set}
use setrixdb.Server.Steps.{Agrees-persist}
use setrixdb.Server.Answers.{set_path, length-unique_ids}
use setrixdb.Server.Meaning.{IsBody, parse_ids-IsBody}
use setrixdb.Server.Asking.{carries, is_refused-carries}

abbrev pub put_request : Str → Str → Str → Str → Request
put_request authorization name content_type body = record {
  method = put_method;
  path = set_path name;
  authorization = authorization;
  content_type = content_type;
  query_id = [];
  body = body;
}

abbrev pub delete_request : Str → Str → Request
delete_request authorization name = record {
  method = delete_method;
  path = set_path name;
  authorization = authorization;
  content_type = [];
  query_id = [];
  body = [];
}

-- The answer to a PUT of a body that says the IDs or cannot be read, by a server that keeps files or not.
abbrev pub put_answer : Str → Bool → Decoded (List ℕ) → Response
put_answer name keeps (invalid text) =
    if is_empty name then err_json 400 name_required else err_json 400 (invalid_body text)
put_answer name keeps (decoded ids) =
    if is_empty name
    then err_json 400 name_required
    else write_json 201 (stored name (length (unique ids)) keeps)

abbrev pub delete_answer : Str → Option (List ℕ) → Response
delete_answer name none = err_json 404 (unknown_set name)
delete_answer name (some ids) = write_json 200 (deleted name)

module _ (os : System) (json : Json) (s : SetStore) where
  put_decoded-answer :
      (name : Str) (ids : Decoded (List ℕ))
      → is_empty name ≡ false
      → (put_decoded os s name ids).0 ≡ put_answer name (not (is_empty s.data_dir)) ids
  unfolding put_decoded store_ids
  put_decoded-answer name (invalid text) e = rw e refl
  put_decoded-answer name (decoded ids) e = rw e (
      ap (λ n. write_json 201 (stored name n (not (is_empty s.data_dir))))
        (length-unique_ids (persist os s name (new_set ids)).0 ids
          (Agrees-persist os s name (new_set ids) (some ids) (Agrees-new_set ids))))

  empty_name :
      (name : Str) (keeps : Bool) (ids : Decoded (List ℕ))
      → is_empty name ≡ true
      → put_answer name keeps ids ≡ err_json 400 name_required
  empty_name name keeps (invalid text) e = rw e refl
  empty_name name keeps (decoded ids) e = rw e refl

  put_request-parse_ids :
      (authorization name content_type body : Str)
      → is_refused s.token (put_request authorization name content_type body) ≡ false
      → (handle_request os json s (put_request authorization name content_type body)).0
        ≡ put_answer name
            (not (is_empty s.data_dir))
            (parse_ids json (put_request authorization name content_type body))
  unfolding handle_request endpoint_of serve_endpoint put_set trim_prefix has_prefix
  put_request-parse_ids authorization name content_type body e =
      let ids = parse_ids json (put_request authorization name content_type body) in
      rw e (elim (Bool-cases (is_empty name)) [
        | inl f ↦ rw (f, empty_name name (not (is_empty s.data_dir)) ids f) refl
        | inr f ↦ rw f (put_decoded-answer name ids f)
      ])

  -- `PUT /sets/{name}` with the token and a body of 64 MiB at most, which says a list of IDs or cannot be read
  -- (what the JSON decoder gives, or, where it is not declared as JSON, the 64-bit numbers among its
  -- words), is answered 400 where the name is empty or the body cannot be read, and otherwise 201 with the
  -- number of different IDs; the answer says that the set was persisted whenever the server has a
  -- directory, whatever the calls of os gave.
  pub put_request-answer :
      (authorization name content_type body : Str) (result : Decoded (List ℕ))
      → carries s.token authorization ≡ true
      → IsBody json content_type body result
      → (handle_request os json s (put_request authorization name content_type body)).0
        ≡ put_answer name (not (is_empty s.data_dir)) result
  put_request-answer authorization name content_type body result a says =
      let r = put_request authorization name content_type body in
      put_request-parse_ids authorization name content_type body
        (is_refused-carries s.token r ∙ ap not a)
      ∙ ap (put_answer name (not (is_empty s.data_dir))) (parse_ids-IsBody json r result says)

  delete_named-answer :
      (name : Str) (o : Option IdSet) (v : Option (List ℕ))
      → Agrees o v
      → (delete_named os s name o).0 ≡ delete_answer name v
  unfolding delete_named
  delete_named-answer name none none a = refl
  delete_named-answer name none (some ids) a = absurd a
  delete_named-answer name (some x) none a = absurd a
  delete_named-answer name (some x) (some ids) a = refl

  -- `DELETE /sets/{name}` with the token is answered by the catalogue: 404 where the name has no set.
  pub delete_request-answer :
      (m : Catalog) (authorization name : Str)
      → Holds s.sets m
      → is_refused s.token (delete_request authorization name) ≡ false
      → (handle_request os json s (delete_request authorization name)).0
        ≡ delete_answer name (m name)
  unfolding handle_request endpoint_of serve_endpoint delete_set trim_prefix has_prefix
  delete_request-answer m authorization name h e =
      rw e (delete_named-answer name (find_str name s.sets) (m name) (h name))
