-- ===== src/Server/Handler.antt =====
-- cmd/setrixdb-server/main.go: `handle`, its check of the token and its switch.
use setrixdb.Base.{Bool, ◌&&◌, ◌||◌, not, ◌++◌, if◌then◌else◌, str_eq}
use setrixdb.Std.Strings.{Str, is_empty, has_prefix, has_suffix}
use setrixdb.Server.Request.{
  Request, Json, Response, write_json, err_json, unauthorized, no_route, health,
}
use setrixdb.Server.Disk.{SetStore, System}
use setrixdb.Server.Routes.{
  get_method, put_method, delete_method, post_method, health_path, sets_path, sets_prefix, has_path,
  intersect_path, union_path, bearer, list_sets, put_set, has_set, info_set, delete_set,
  combine_sets,
}

-- The cases of the switch.
pub data Endpoint : Type 0 where
  to_health to_list to_put to_has to_info to_delete to_combine to_nothing : Endpoint

-- The first case that holds of the method and the path.
unfoldable pub endpoint_of : Request → Endpoint
endpoint_of r =
    if str_eq r.method get_method && str_eq r.path health_path
    then to_health
    else if str_eq r.method get_method && str_eq r.path sets_path
    then to_list
    else if str_eq r.method put_method && has_prefix r.path sets_prefix
    then to_put
    else if str_eq r.method get_method && has_suffix r.path has_path
    then to_has
    else if str_eq r.method get_method && has_prefix r.path sets_prefix
    then to_info
    else if str_eq r.method delete_method && has_prefix r.path sets_prefix
    then to_delete
    else if str_eq r.method post_method
        && (str_eq r.path intersect_path || str_eq r.path union_path)
    then to_combine
    else to_nothing

-- The body of each case.
unfoldable pub serve_endpoint : System → Json → SetStore → Request → Endpoint → Response × SetStore
unfolding list_sets put_set has_set info_set delete_set combine_sets
serve_endpoint os json s r to_health = (write_json 200 health, s)
serve_endpoint os json s r to_list = list_sets s
serve_endpoint os json s r to_put = put_set os json s r
serve_endpoint os json s r to_has = has_set s r
serve_endpoint os json s r to_info = info_set s r
serve_endpoint os json s r to_delete = delete_set os s r
serve_endpoint os json s r to_combine = combine_sets json s r
serve_endpoint os json s r to_nothing = (err_json 404 (no_route r.method r.path), s)

-- Whether the request does not carry the token.
abbrev pub is_refused : Str → Request → Bool
is_refused token r = not (is_empty token) && not (str_eq r.authorization (bearer ++ token))

unfoldable pub handle_request : System → Json → SetStore → Request → Response × SetStore
unfolding endpoint_of serve_endpoint
handle_request os json s r =
    if is_refused s.token r
    then (err_json 401 unauthorized, s)
    else serve_endpoint os json s r (endpoint_of r)
