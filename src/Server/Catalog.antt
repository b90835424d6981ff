-- ===== src/Server/Catalog.antt =====
-- The catalogue that the server promises: under each name the IDs of the latest PUT that was accepted,
-- unless a DELETE came after it. How a store represents it.
use setrixdb.Base.{
  ℕ, ◌≡◌, ◌&&◌, Option, none, some, List, [], ◌∷◌, if◌then◌else◌, str_eq, find_str, elem,
}
use setrixdb.Std.Strings.{Str, is_empty, has_prefix, trim_prefix}
use setrixdb.IdSet.{IdSet}
use setrixdb.IdSet.Laws.{IsValid, member}
use setrixdb.Server.Request.{Request, Json, Decoded, decoded, invalid, parse_ids}
use setrixdb.Server.Disk.{SetStore, System}
use setrixdb.Server.Routes.{put_method, delete_method, sets_prefix}
use setrixdb.Server.Handler.{is_refused, handle_request}

abbrev pub Catalog : Type 0
Catalog = Str → Option (List ℕ)

abbrev pub Change : Type 0
Change = Option (Str × Option (List ℕ))

abbrev pub put_change : Str → Decoded (List ℕ) → Change
put_change name (invalid text) = none
put_change name (decoded ids) = if is_empty name then none else some (name, some ids)

-- What an accepted request changes: the name, and its IDs from then on.
abbrev pub change_of : Json → Request → Change
change_of json r =
    let name = trim_prefix r.path sets_prefix in
    if str_eq r.method put_method && has_prefix r.path sets_prefix
    then put_change name (parse_ids json r)
    else if str_eq r.method delete_method && has_prefix r.path sets_prefix
    then some (name, none)
    else none

abbrev pub apply_change : Change → Catalog → Catalog
apply_change none m q = m q
apply_change (some (name, v)) m q = if str_eq name q then v else m q

-- What a request to a server with the token changes.
abbrev pub effect_of : Json → Str → Request → Change
effect_of json token r = if is_refused token r then none else change_of json r

-- The store after a list of requests.
unfoldable pub run_requests : Json → List (System × Request) → SetStore → SetStore
run_requests json [] s = s
run_requests json ((os, r) ∷ requests) s = run_requests json requests (handle_request os json s r).1

-- A set represents a list of IDs.
abbrev pub Agrees : Option IdSet → Option (List ℕ) → Type 0
Agrees none none = Unit
Agrees none (some ids) = ⊥
Agrees (some set) none = ⊥
Agrees (some set) (some ids) = IsValid set × ((q : ℕ) → member set q ≡ elem q ids)

abbrev pub Holds : List (Str × IdSet) → Catalog → Type 0
Holds sets m = (name : Str) → Agrees (find_str name sets) (m name)
