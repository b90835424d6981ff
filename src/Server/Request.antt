-- ===== src/Server/Request.antt =====
-- cmd/setrixdb-server/main.go: what a request carries, the bodies that `parseIDs` and the query of
-- `handle` read, and the answers. The decoder encoding/json is the parameter Json.
use setrixdb.Base.{
  ℕ, ◌≡◌, ◌≤◌, ◌||◌, Bool, Option, none, some, List, [], ◌∷◌, length, take, ltb, ◌==◌,
  if◌then◌else◌, Below, u64_mod,
}
use setrixdb.Std.Strings.{Str, fields_func, contains_str}
use setrixdb.Std.Strconv.{parse_uint}

-- The request as net/http hands it over; `query_id` is `r.URL.Query().Get("id")`.
pub record Request : Type 0 where
  pub method : Str
  pub path : Str
  pub authorization : Str
  pub content_type : Str
  pub query_id : Str
  pub body : Str

-- 64 MiB.
abbrev pub max_body : ℕ
max_body = 67108864

-- What a reader of the body gets: the bytes up to the limit, and whether an error follows them.
pub record LimitedBody : Type 0 where
  pub bytes : Str
  pub cut : Bool

-- `http.MaxBytesReader(w, r.Body, maxBody)`
unfoldable pub limit_body : Str → LimitedBody
limit_body body = record { bytes = take max_body body; cut = ltb max_body (length body) }

pub data Decoded (A : Type 0) : Type 0 where
  decoded : A → Decoded A
  invalid : Str → Decoded A

-- `struct { Sets []string; List bool }`
pub record SetQuery : Type 0 where
  pub sets : List Str
  pub list : Bool

-- encoding/json on the two types that the server decodes, with the text of its error. The numbers of
-- a []uint64 fit in 64 bits, and each takes a byte of the text at least.
pub record Json : Type 0 where
  pub decode_ids : LimitedBody → Decoded (List ℕ)
  pub decode_query : LimitedBody → Decoded SetQuery
  pub decode_ids-Below :
      (body : LimitedBody) (ids : List ℕ) → decode_ids body ≡ decoded ids → Below u64_mod ids
  pub decode_ids-length :
      (body : LimitedBody) (ids : List ℕ)
      → decode_ids body ≡ decoded ids
      → length ids ≤ length body.bytes

-- The errors that the handler answers with.
pub data Problem : Type 0 where
  unauthorized name_required invalid_id too_few_sets : Problem
  invalid_body unknown_set : Str → Problem
  no_route : Str → Str → Problem

-- What the handler encodes as the answer.
pub data Payload : Type 0 where
  health : Payload
  listing : List Str → ℕ → Payload
  stored : Str → ℕ → Bool → Payload
  membership : ℕ → Bool → Str → Payload
  info : Str → ℕ → Payload
  deleted : Str → Payload
  combined : ℕ → List Str → Option (List ℕ) → Payload
  problem : Problem → Payload

pub record Response : Type 0 where
  pub status : ℕ
  pub payload : Payload

abbrev pub write_json : ℕ → Payload → Response
write_json code v = record { status = code; payload = v }

abbrev pub err_json : ℕ → Problem → Response
err_json code p = write_json code (problem p)

-- `,`, space, newline, tab, carriage return, `;`
abbrev pub is_separator : ℕ → Bool
is_separator c =
    c == b',' || (c == b' ' || (c == b'\n' || (c == b'\t' || (c == b'\r' || c == b';'))))

abbrev pub add_id : Option ℕ → List ℕ → List ℕ
add_id none ids = ids
add_id (some v) ids = v ∷ ids

-- `if v, e := strconv.ParseUint(tok, 10, 64); e == nil { ids = append(ids, v) }` on each token.
unfoldable pub ids_of_tokens : List Str → List ℕ
ids_of_tokens [] = []
ids_of_tokens (tok ∷ tokens) = add_id (parse_uint tok) (ids_of_tokens tokens)

-- "application/json"
abbrev pub json_type : Str
json_type =
    b'a' ∷ b'p' ∷ b'p' ∷ b'l' ∷ b'i' ∷ b'c' ∷ b'a' ∷ b't' ∷ b'i' ∷ b'o' ∷ b'n' ∷ b'/' ∷ b'j' ∷ b's'
    ∷ b'o' ∷ b'n' ∷ []

unfoldable pub parse_text : LimitedBody → List ℕ
unfolding ids_of_tokens
parse_text body = ids_of_tokens (fields_func is_separator body.bytes)

unfoldable pub parse_ids : Json → Request → Decoded (List ℕ)
unfolding limit_body parse_text
parse_ids json r =
    let body = limit_body r.body in
    if contains_str r.content_type json_type
    then json.decode_ids body
    else decoded (parse_text body)
