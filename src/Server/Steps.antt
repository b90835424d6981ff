-- ===== src/Server/Steps.antt =====
-- A request to the server changes the catalogue as it says, and the token stays.
use setrixdb.Base.{
  ℕ, ◌≡◌, refl, subst, true, false, ◌||◌, not, Option, none, some, List, [], ◌∷◌, str_eq, length,
  ltb, str_eq→≡, find_str, Bool-cases, inl, inr, arith,
}
use setrixdb.Std.Strings.{Str, is_empty, trim_prefix, trim_suffix}
use setrixdb.Std.Strconv.{parse_uint}
use setrixdb.IdSet.{IdSet, new_set, len, has, sorted_ids, finalize, intersect, union}
use setrixdb.IdSet.Algebra.{member-intersect, member-union}
use setrixdb.IdSet.Laws.{has-member}
use setrixdb.Persist.{write_file}
use setrixdb.Server.Request.{
  Request, Json, SetQuery, Decoded, decoded, invalid, limit_body, parse_ids,
}
use setrixdb.Server.Disk.{SetStore, System, persist}
use setrixdb.Server.Routes.{
  get_method, put_method, delete_method, sets_prefix, has_path, intersect_path, Parts, parts,
  missing, put_parts, parts_of, store_ids, put_decoded, put_set, answer_has, has_named, has_set,
  info_named, info_set, delete_named, delete_set, combine_parts, combine_decoded, combine_sets,
  list_sets,
}
use setrixdb.Server.Handler.{
  Endpoint, to_health, to_list, to_put, to_has, to_info, to_delete, to_combine, to_nothing,
  endpoint_of, serve_endpoint, is_refused, handle_request,
}
use setrixdb.Server.Catalog.{
  Catalog, Change, put_change, change_of, effect_of, apply_change, Agrees, Holds,
}
use setrixdb.Server.Keeping.{
  put_key-Holds, delete_key-Holds, put_key-kept, Agrees-same, Agrees-IsValid, Agrees-finalize,
  Agrees-new_set, RepresentAll, AreParts, parts_of-AreParts, RepresentAll-AllValid,
  RepresentAll-same, put_parts-Holds,
}

pub Agrees-persist :
    (os : System) (s : SetStore) (name : Str) (set : IdSet) (v : Option (List ℕ))
    → Agrees (some set) v
    → Agrees (some (persist os s name set).0) v
unfolding persist write_file sorted_ids
Agrees-persist os s name set v a = elim (Bool-cases (is_empty s.data_dir || not os.make_dir)) [
  | inl e ↦ rw e a
  | inr e ↦ rw e (Agrees-finalize set v a)
]

-- What the cases of the switch change.
abbrev pub change_at : Json → Request → Endpoint → Change
change_at json r to_put = put_change (trim_prefix r.path sets_prefix) (parse_ids json r)
change_at json r to_delete = some (trim_prefix r.path sets_prefix, none)
change_at json r to_health = none
change_at json r to_list = none
change_at json r to_has = none
change_at json r to_info = none
change_at json r to_combine = none
change_at json r to_nothing = none

get-apart :
    (method : Str)
    → str_eq method get_method ≡ true
    → (str_eq method put_method ≡ false) × (str_eq method delete_method ≡ false)
get-apart method e = rw (str_eq→≡ method get_method e) (refl, refl)

put-apart :
    (method : Str)
    → str_eq method put_method ≡ true
    → (str_eq method get_method ≡ false) × (str_eq method delete_method ≡ false)
put-apart method e = rw (str_eq→≡ method put_method e) (refl, refl)

delete-apart :
    (method : Str)
    → str_eq method delete_method ≡ true
    → (str_eq method get_method ≡ false) × (str_eq method put_method ≡ false)
delete-apart method e = rw (str_eq→≡ method delete_method e) (refl, refl)

-- The case that is chosen changes what the method and the path say.
pub change_at-change_of :
    (json : Json) (r : Request) → change_at json r (endpoint_of r) ≡ change_of json r
unfolding endpoint_of
change_at-change_of json r = elim (Bool-cases (str_eq r.method get_method)) [
  | inl e ↦ let (e₁, e₂) = get-apart r.method e in rw (e, e₁, e₂) (ground arith)
  | inr e ↦ elim (Bool-cases (str_eq r.method put_method)) [
    | inl f ↦ let (_, f₂) = put-apart r.method f in rw (e, f, f₂) (ground arith)
    | inr f ↦ rw (e, f) (ground arith)
  ]
]

pub put_change_empty :
    (name : Str) (ids : Decoded (List ℕ)) → is_empty name ≡ true → put_change name ids ≡ none
put_change_empty name (invalid text) e = refl
put_change_empty name (decoded ids) e = rw e

module _ (os : System) (json : Json) (s : SetStore) (m : Catalog) (h : Holds s.sets m) where
  store_ids-Holds :
      (name : Str) (ids : List ℕ)
      → Holds (store_ids os s name ids).1.sets (apply_change (some (name, some ids)) m)
  unfolding store_ids len
  store_ids-Holds name ids =
      put_key-Holds s.sets m name (finalize (persist os s name (new_set ids)).0) (some ids) h (
        Agrees-finalize (persist os s name (new_set ids)).0 (some ids)
          (Agrees-persist os s name (new_set ids) (some ids) (Agrees-new_set ids)))

  put_decoded-Holds :
      (name : Str) (ids : Decoded (List ℕ))
      → is_empty name ≡ false
      → Holds (put_decoded os s name ids).1.sets (apply_change (put_change name ids) m)
  unfolding put_decoded
  put_decoded-Holds name (invalid text) e = h
  put_decoded-Holds name (decoded ids) e = rw e (store_ids-Holds name ids)

  put_set-Holds :
      (r : Request)
      → Holds
          (put_set os json s r).1.sets
          (apply_change (put_change (trim_prefix r.path sets_prefix) (parse_ids json r)) m)
  unfolding put_set
  put_set-Holds r =
      let name = trim_prefix r.path sets_prefix in
      elim (Bool-cases (is_empty name)) [
        | inl e ↦ rw (e, put_change_empty name (parse_ids json r) e) h
        | inr e ↦ rw e (put_decoded-Holds name (parse_ids json r) e)
      ]

  answer_has-Holds :
      (name : Str) (set : IdSet) (id : Option ℕ)
      → Agrees (some set) (m name)
      → Holds (answer_has s name set id).1.sets m
  unfolding answer_has
  answer_has-Holds name set none a = h
  answer_has-Holds name set (some q) a =
      let (_, valid, same) = has-member set q (Agrees-IsValid set (m name) a) in
      put_key-kept s.sets m name (has set q).1 h
        (Agrees-same set (has set q).1 (m name) a valid same)

  has_named-Holds :
      (name : Str) (o : Option IdSet) (id : Str)
      → Agrees o (m name)
      → Holds (has_named s name o id).1.sets m
  unfolding has_named
  has_named-Holds name none id a = h
  has_named-Holds name (some set) id a = answer_has-Holds name set (parse_uint id) a

  info_named-Holds :
      (name : Str) (o : Option IdSet) → Agrees o (m name) → Holds (info_named s name o).1.sets m
  unfolding info_named len
  info_named-Holds name none a = h
  info_named-Holds name (some set) a =
      put_key-kept s.sets m name (finalize set) h (Agrees-finalize set (m name) a)

  delete_named-Holds :
      (name : Str) (o : Option IdSet)
      → Holds (delete_named os s name o).1.sets (apply_change (some (name, none)) m)
  unfolding delete_named
  delete_named-Holds name none = delete_key-Holds s.sets m name h
  delete_named-Holds name (some set) = delete_key-Holds s.sets m name h

  combine_parts-Holds :
      (path : Str) (q : SetQuery) (found : Parts)
      → AreParts m q.sets found
      → Holds (combine_parts s path q found).1.sets m
  unfolding combine_parts intersect
  combine_parts-Holds path q (missing n) a = h
  combine_parts-Holds path q (parts sets) a = elim (Bool-cases (str_eq path intersect_path)) [
    | inl e ↦ rw e (intersected q.sets sets a.1)
    | inr e ↦
        let (_, _, valid, same) = member-union sets (RepresentAll-AllValid m q.sets sets a.1) in
        rw e (
          put_parts-Holds m q.sets (union sets).1 s.sets h
            (RepresentAll-same m q.sets (union sets).1 sets a.1 valid same))
  ]
    where
      intersected :
          (names : List Str) (sets : List IdSet)
          → RepresentAll m names sets
          → Holds (put_parts names (intersect sets).1 s.sets) m
      intersected names [] a = put_parts-Holds m names [] s.sets h a
      intersected names (set ∷ sets) a =
          let (_, _, valid, same) =
            member-intersect set sets (RepresentAll-AllValid m names (set ∷ sets) a) in
          put_parts-Holds m names (intersect (set ∷ sets)).1 s.sets h
            (RepresentAll-same m names (intersect (set ∷ sets)).1 (set ∷ sets) a valid same)

  combine_decoded-Holds :
      (path : Str) (q : Decoded SetQuery) → Holds (combine_decoded s path q).1.sets m
  unfolding combine_decoded
  combine_decoded-Holds path (invalid text) = h
  combine_decoded-Holds path (decoded q) = elim (Bool-cases (ltb (length q.sets) 2)) [
    | inl e ↦ rw e h
    | inr e ↦
        rw e (
          combine_parts-Holds path q (parts_of s.sets q.sets) (parts_of-AreParts s.sets m q.sets h))
  ]

  -- Each case of the switch changes the catalogue as it says.
  serve_endpoint-Holds :
      (r : Request) (e : Endpoint)
      → Holds (serve_endpoint os json s r e).1.sets (apply_change (change_at json r e) m)
  unfolding serve_endpoint list_sets has_set info_set delete_set combine_sets
  serve_endpoint-Holds r to_health = h
  serve_endpoint-Holds r to_list = h
  serve_endpoint-Holds r to_put = put_set-Holds r
  serve_endpoint-Holds r to_has =
      let name = trim_suffix (trim_prefix r.path sets_prefix) has_path in
      has_named-Holds name (find_str name s.sets) r.query_id (h name)
  serve_endpoint-Holds r to_info =
      let name = trim_prefix r.path sets_prefix in
      info_named-Holds name (find_str name s.sets) (h name)
  serve_endpoint-Holds r to_delete =
      let name = trim_prefix r.path sets_prefix in delete_named-Holds name (find_str name s.sets)
  serve_endpoint-Holds r to_combine =
      combine_decoded-Holds r.path (json.decode_query (limit_body r.body))
  serve_endpoint-Holds r to_nothing = h

-- An accepted request changes the catalogue as it says; a refused one changes nothing.
pub handle_request-Holds :
    (os : System) (json : Json) (s : SetStore) (m : Catalog) (r : Request)
    → Holds s.sets m
    → Holds (handle_request os json s r).1.sets (apply_change (effect_of json s.token r) m)
unfolding handle_request
handle_request-Holds os json s m r h = elim (Bool-cases (is_refused s.token r)) [
  | inl e ↦ rw e h
  | inr e ↦ rw e (
      subst (λ c. Holds (serve_endpoint os json s r (endpoint_of r)).1.sets (apply_change c m))
        (change_at-change_of json r) (serve_endpoint-Holds os json s m h r (endpoint_of r)))
]
