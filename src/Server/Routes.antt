-- ===== src/Server/Routes.antt =====
-- cmd/setrixdb-server/main.go: what `handle` does for each route. A call that finalizes a set changes
-- the set in the map too, which holds the pointer, so the sets that a route has used are put back as the
-- call leaves them.
use setrixdb.Base.{
  ℕ, not, Option, none, some, List, [], ◌∷◌, length, ltb, if◌then◌else◌, str_eq, find_str,
}
use setrixdb.Std.Strings.{Str, is_empty, trim_prefix, trim_suffix}
use setrixdb.Std.Strconv.{parse_uint}
use setrixdb.IdSet.{IdSet, new_set, len, has, sorted_ids, intersect, union}
use setrixdb.Server.Maps.{put_key, delete_key, map_keys}
use setrixdb.Server.Request.{
  Request, Json, SetQuery, Decoded, decoded, invalid, limit_body, parse_ids, Response, write_json,
  err_json, name_required, invalid_id, too_few_sets, invalid_body, unknown_set, listing, stored,
  membership, info, deleted, combined,
}
use setrixdb.Server.Disk.{SetStore, System, persist, forget}

abbrev pub get_method : Str
get_method = b'G' ∷ b'E' ∷ b'T' ∷ []

abbrev pub put_method : Str
put_method = b'P' ∷ b'U' ∷ b'T' ∷ []

abbrev pub delete_method : Str
delete_method = b'D' ∷ b'E' ∷ b'L' ∷ b'E' ∷ b'T' ∷ b'E' ∷ []

abbrev pub post_method : Str
post_method = b'P' ∷ b'O' ∷ b'S' ∷ b'T' ∷ []

-- "/health"
abbrev pub health_path : Str
health_path = b'/' ∷ b'h' ∷ b'e' ∷ b'a' ∷ b'l' ∷ b't' ∷ b'h' ∷ []

-- "/sets"
abbrev pub sets_path : Str
sets_path = b'/' ∷ b's' ∷ b'e' ∷ b't' ∷ b's' ∷ []

-- "/sets/"
abbrev pub sets_prefix : Str
sets_prefix = b'/' ∷ b's' ∷ b'e' ∷ b't' ∷ b's' ∷ b'/' ∷ []

-- "/has"
abbrev pub has_path : Str
has_path = b'/' ∷ b'h' ∷ b'a' ∷ b's' ∷ []

-- "/intersect"
abbrev pub intersect_path : Str
intersect_path = b'/' ∷ b'i' ∷ b'n' ∷ b't' ∷ b'e' ∷ b'r' ∷ b's' ∷ b'e' ∷ b'c' ∷ b't' ∷ []

-- "/union"
abbrev pub union_path : Str
union_path = b'/' ∷ b'u' ∷ b'n' ∷ b'i' ∷ b'o' ∷ b'n' ∷ []

-- "Bearer "
abbrev pub bearer : Str
bearer = b'B' ∷ b'e' ∷ b'a' ∷ b'r' ∷ b'e' ∷ b'r' ∷ b' ' ∷ []

abbrev pub with_sets : SetStore → List (Str × IdSet) → SetStore
with_sets s sets = record { sets = sets; data_dir = s.data_dir; token = s.token; files = s.files }

unfoldable pub list_sets : SetStore → Response × SetStore
list_sets s = let names = map_keys s.sets in (write_json 200 (listing names (length names)), s)

-- The new set goes to the map and to the disk, and `Len` finalizes it.
unfoldable pub store_ids : System → SetStore → Str → List ℕ → Response × SetStore
store_ids os s name ids =
    let (set, files) = persist os s name (new_set ids) in
    let (count, set') = len set in
    (
      write_json 201 (stored name count (not (is_empty s.data_dir))),
      record {
        sets = put_key name set' s.sets;
        data_dir = s.data_dir;
        token = s.token;
        files = files;
      },
    )

unfoldable pub put_decoded : System → SetStore → Str → Decoded (List ℕ) → Response × SetStore
unfolding store_ids
put_decoded os s name (invalid text) = (err_json 400 (invalid_body text), s)
put_decoded os s name (decoded ids) = store_ids os s name ids

unfoldable pub put_set : System → Json → SetStore → Request → Response × SetStore
unfolding put_decoded
put_set os json s r =
    let name = trim_prefix r.path sets_prefix in
    if is_empty name
    then (err_json 400 name_required, s)
    else put_decoded os s name (parse_ids json r)

unfoldable pub answer_has : SetStore → Str → IdSet → Option ℕ → Response × SetStore
answer_has s name set none = (err_json 400 invalid_id, s)
answer_has s name set (some q) =
    let (member, set') = has set q in
    (write_json 200 (membership q member name), with_sets s (put_key name set' s.sets))

unfoldable pub has_named : SetStore → Str → Option IdSet → Str → Response × SetStore
unfolding answer_has
has_named s name none id = (err_json 404 (unknown_set name), s)
has_named s name (some set) id = answer_has s name set (parse_uint id)

unfoldable pub has_set : SetStore → Request → Response × SetStore
unfolding has_named
has_set s r =
    let name = trim_suffix (trim_prefix r.path sets_prefix) has_path in
    has_named s name (find_str name s.sets) r.query_id

unfoldable pub info_named : SetStore → Str → Option IdSet → Response × SetStore
info_named s name none = (err_json 404 (unknown_set name), s)
info_named s name (some set) =
    let (count, set') = len set in
    (write_json 200 (info name count), with_sets s (put_key name set' s.sets))

unfoldable pub info_set : SetStore → Request → Response × SetStore
unfolding info_named
info_set s r = let name = trim_prefix r.path sets_prefix in info_named s name (find_str name s.sets)

unfoldable pub delete_named : System → SetStore → Str → Option IdSet → Response × SetStore
delete_named os s name none =
    (err_json 404 (unknown_set name), with_sets s (delete_key name s.sets))
delete_named os s name (some set) = (
  write_json 200 (deleted name),
  record {
    sets = delete_key name s.sets;
    data_dir = s.data_dir;
    token = s.token;
    files = forget os s name;
  },
)

unfoldable pub delete_set : System → SetStore → Request → Response × SetStore
unfolding delete_named
delete_set os s r =
    let name = trim_prefix r.path sets_prefix in delete_named os s name (find_str name s.sets)

-- The sets of the names, or the first name that is not there.
pub data Parts : Type 0 where
  parts : List IdSet → Parts
  missing : Str → Parts

unfoldable pub add_to_parts : IdSet → Parts → Parts
add_to_parts set (missing n) = missing n
add_to_parts set (parts sets) = parts (set ∷ sets)

unfoldable pub add_named : Str → Option IdSet → Parts → Parts
unfolding add_to_parts
add_named n none rest = missing n
add_named n (some set) rest = add_to_parts set rest

unfoldable pub parts_of : List (Str × IdSet) → List Str → Parts
unfolding add_named
parts_of sets [] = parts []
parts_of sets (n ∷ names) = add_named n (find_str n sets) (parts_of sets names)

unfoldable pub put_parts : List Str → List IdSet → List (Str × IdSet) → List (Str × IdSet)
put_parts [] used sets = sets
put_parts (n ∷ names) [] sets = sets
put_parts (n ∷ names) (set ∷ used) sets = put_parts names used (put_key n set sets)

unfoldable pub combine_parts : SetStore → Str → SetQuery → Parts → Response × SetStore
unfolding put_parts
combine_parts s path q (missing n) = (err_json 404 (unknown_set n), s)
combine_parts s path q (parts sets) =
    let (res, used) = if str_eq path intersect_path then intersect sets else union sets in
    let (count, res') = len res in
    let (ids, _) = sorted_ids res' in
    (
      write_json 200 (combined count q.sets (if q.list then some ids else none)),
      with_sets s (put_parts q.sets used s.sets),
    )

unfoldable pub combine_decoded : SetStore → Str → Decoded SetQuery → Response × SetStore
unfolding combine_parts parts_of
combine_decoded s path (invalid text) = (err_json 400 (invalid_body text), s)
combine_decoded s path (decoded q) =
    if ltb (length q.sets) 2
    then (err_json 400 too_few_sets, s)
    else combine_parts s path q (parts_of s.sets q.sets)

unfoldable pub combine_sets : Json → SetStore → Request → Response × SetStore
unfolding combine_decoded
combine_sets json s r = combine_decoded s r.path (json.decode_query (limit_body r.body))
