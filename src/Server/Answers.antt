-- ===== src/Server/Answers.antt =====
-- What the server answers, in terms of the catalogue that its store holds.
use setrixdb.Base.{
  length, set, elem, unique, elem-unique, unique-IsUnique, length_of_same_elems, u64_mod, find_str,
  ℕ, ◌<◌, ◌≡◌, refl, sym, ap, ◌∙◌, false, Option, none, some, List, [], ◌++◌,
}
use setrixdb.Std.Strings.{Str, has_prefix, trim_prefix, has_suffix}
use setrixdb.Std.Strings.Laws.{has_suffix-append, trim_suffix-append}
use setrixdb.Std.Strconv.{format_uint}
use setrixdb.Std.Strconv.Laws.{parse_uint-format_uint}
use setrixdb.IdSet.{IdSet, len}
use setrixdb.IdSet.Laws.{has-member, len-unique}
use setrixdb.Server.Request.{
  Request, Json, Response, write_json, err_json, unknown_set, membership, info,
}
use setrixdb.Server.Disk.{SetStore, System}
use setrixdb.Server.Routes.{
  get_method, sets_prefix, has_path, answer_has, has_named, has_set, info_named, info_set,
}
use setrixdb.Server.Handler.{endpoint_of, serve_endpoint, is_refused, handle_request}
use setrixdb.Server.Catalog.{Catalog, Agrees, Holds}

-- The answer to `has`, by the catalogue.
abbrev pub has_answer : Str → Option (List ℕ) → ℕ → Response
has_answer name none q = err_json 404 (unknown_set name)
has_answer name (some ids) q = write_json 200 (membership q (elem q ids) name)

abbrev pub info_answer : Str → Option (List ℕ) → Response
info_answer name none = err_json 404 (unknown_set name)
info_answer name (some ids) = write_json 200 (info name (length (unique ids)))

has_named-answer :
    (s : SetStore) (name : Str) (o : Option IdSet) (v : Option (List ℕ)) (q : ℕ)
    → Agrees o v
    → q < u64_mod
    → (has_named s name o (format_uint q)).0 ≡ has_answer name v q
unfolding has_named answer_has
has_named-answer s name none none q a h = refl
has_named-answer s name none (some ids) q a h = absurd a
has_named-answer s name (some set) none q a h = absurd a
has_named-answer s name (some set) (some ids) q a h =
    let (same, _, _) = has-member set q a.0 in rw (parse_uint-format_uint q h, same, a.1 q) refl

-- `Len` counts the different IDs that the set represents.
pub length-unique_ids :
    (set : IdSet) (ids : List ℕ) → Agrees (some set) (some ids) → (len set).0 ≡ length (unique ids)
length-unique_ids set ids a =
    len-unique set a.0
    ∙ length_of_same_elems (unique set.ids) (unique ids) (unique-IsUnique set.ids)
        (unique-IsUnique ids) (λ q. elem-unique q set.ids ∙ a.1 q ∙ sym (elem-unique q ids))

info_named-answer :
    (s : SetStore) (name : Str) (o : Option IdSet) (v : Option (List ℕ))
    → Agrees o v
    → (info_named s name o).0 ≡ info_answer name v
unfolding info_named
info_named-answer s name none none a = refl
info_named-answer s name none (some ids) a = absurd a
info_named-answer s name (some set) none a = absurd a
info_named-answer s name (some set) (some ids) a =
    ap (λ n. write_json 200 (info name n)) (length-unique_ids set ids a)

-- The path of a set, and of the question whether it has an ID.
abbrev pub set_path : Str → Str
set_path name = sets_prefix ++ name

abbrev pub set_has_path : Str → Str
set_has_path name = (sets_prefix ++ name) ++ has_path

abbrev pub has_request : Str → Str → ℕ → Request
has_request authorization name q = record {
  method = get_method;
  path = set_has_path name;
  authorization = authorization;
  content_type = [];
  query_id = format_uint q;
  body = [];
}

abbrev pub info_request : Str → Str → Request
info_request authorization name = record {
  method = get_method;
  path = set_path name;
  authorization = authorization;
  content_type = [];
  query_id = [];
  body = [];
}

-- `GET /sets/{name}/has?id=q` with the token and a 64-bit ID is answered by the catalogue: whether the ID is
-- among those of the name, or 404 where the name has no set.
pub has_request-answer :
    (os : System) (json : Json) (s : SetStore) (m : Catalog) (authorization name : Str) (q : ℕ)
    → Holds s.sets m
    → is_refused s.token (has_request authorization name q) ≡ false
    → q < u64_mod
    → (handle_request os json s (has_request authorization name q)).0 ≡ has_answer name (m name) q
unfolding handle_request endpoint_of serve_endpoint has_set trim_prefix has_prefix
has_request-answer os json s m authorization name q h e short =
    rw (e, has_suffix-append (set_path name) has_path, trim_suffix-append name has_path)
      (has_named-answer s name (find_str name s.sets) (m name) q (h name) short)

-- `GET /sets/{name}` with the token is answered by the catalogue, where the path does not end in /has: the
-- number of the different IDs of the name, or 404 where the name has no set.
pub info_request-answer :
    (os : System) (json : Json) (s : SetStore) (m : Catalog) (authorization name : Str)
    → Holds s.sets m
    → is_refused s.token (info_request authorization name) ≡ false
    → has_suffix (set_path name) has_path ≡ false
    → (handle_request os json s (info_request authorization name)).0 ≡ info_answer name (m name)
unfolding handle_request endpoint_of serve_endpoint info_set trim_prefix has_prefix
info_request-answer os json s m authorization name h e apart =
    rw (e, apart) (info_named-answer s name (find_str name s.sets) (m name) (h name))
