-- ===== src/Examples/Servers.antt =====
-- The server with the token "t", on files in memory, and a decoder that knows one query.
use setrixdb.Base.{
  if◌then◌else◌, Bool-cases, str_eq, find_str, ℕ, ◌≡◌, refl, ◌≢◌, inl, inr, true, false, none, some,
  List, [], ◌∷◌, ◌++◌, arith,
}
use setrixdb.Examples.Files.{in_memory}
use setrixdb.Std.Strings.{Str, contains_str, fields_from}
use setrixdb.Std.FilePath.{join}
use setrixdb.Std.Strconv.{format_uint}
use setrixdb.IdSet.{new_set}
use setrixdb.Persist.Writing.{write_file-some}
use setrixdb.Server.Request.{
  Request, Json, SetQuery, LimitedBody, decoded, invalid, parse_ids, write_json, stored,
}
use setrixdb.Server.Disk.{SetStore, System, DirEntry, extension, file_of, new_store}
use setrixdb.Server.Routes.{bearer, intersect_path, union_path}
use setrixdb.Server.Handler.{handle_request}
use setrixdb.Server.Catalog.{Catalog, Change, Agrees, Holds, run_requests}
use setrixdb.Server.Keeping.{Agrees-new_set}
use setrixdb.Server.Files.{Works}
use setrixdb.Server.Runs.{run_requests-Holds, unauthorized_ones, run_requests-accepted}
use setrixdb.Server.Meaning.{noise, number, IsBody, as_text}
use setrixdb.Server.Asking.{AllSay, puts, lacks_token}
use setrixdb.Server.Restart.{new_store-run_requests}
use setrixdb.Server.Answers.{has_request, has_answer, has_request-answer}
use setrixdb.Server.Changing.{put_request, put_request-answer}
use setrixdb.Server.Combining.{
  combine_request, CombinesDecoded, in_every, in_some, intersect_request-answer,
  union_request-answer,
}
use setrixdb.Server.Text.{text_of, parse_ids-text_of}

abbrev disk : System
disk = record {
  make_dir = true;
  file = λ name. in_memory;
  broken = λ name files. files;
  removes = λ name. true;
  broken_keeps = λ file other files e. refl;
}

abbrev query : SetQuery
query = record { sets = (b'a' ∷ []) ∷ (b'b' ∷ []) ∷ []; list = true }

none_decoded : (body : LimitedBody) (ids : List ℕ) → invalid [] ≢ decoded ids
none_decoded body ids e = cc

abbrev one_query : Json
one_query = record {
  decode_ids = λ body. invalid [];
  decode_query = λ body. decoded query;
  decode_ids-Below = λ body ids e. absurd (none_decoded body ids e);
  decode_ids-length = λ body ids e. absurd (none_decoded body ids e);
}

abbrev token : Str
token = b't' ∷ []

abbrev empty_server : SetStore
empty_server = record { sets = []; data_dir = b'd' ∷ []; token = token; files = [] }

abbrev no_sets : Catalog
no_sets name = none

-- "application/x-www-form-urlencoded", the type that curl gives to a body.
abbrev form_type : Str
form_type =
    b'a' ∷ b'p' ∷ b'p' ∷ b'l' ∷ b'i' ∷ b'c' ∷ b'a' ∷ b't' ∷ b'i' ∷ b'o' ∷ b'n' ∷ b'/' ∷ b'x' ∷ b'-'
    ∷ b'w' ∷ b'w' ∷ b'w' ∷ b'-' ∷ b'f' ∷ b'o' ∷ b'r' ∷ b'm' ∷ b'-' ∷ b'u' ∷ b'r' ∷ b'l' ∷ b'e'
    ∷ b'n' ∷ b'c' ∷ b'o' ∷ b'd' ∷ b'e' ∷ b'd' ∷ []

-- {"ids":[1
abbrev first_word : Str
first_word = b'{' ∷ b'"' ∷ b'i' ∷ b'd' ∷ b's' ∷ b'"' ∷ b':' ∷ b'[' ∷ b'1' ∷ []

-- 3]}
abbrev last_word : Str
last_word = b'3' ∷ b']' ∷ b'}' ∷ []

-- {"ids":[1,2,3]}, the body of the README.
abbrev readme_body : Str
readme_body = first_word ++ b',' ∷ b'2' ∷ b',' ∷ last_word

-- As a text it says the ID 2 only.
readme_body-IsBody : IsBody one_query form_type readme_body (decoded (2 ∷ []))
unfolding format_uint contains_str
readme_body-IsBody =
    as_text ((noise first_word, b',') ∷ (number (b'2' ∷ []), b',') ∷ []) (noise last_word) refl
      (omega arith)
      (
        ((refl, (refl, (refl, (refl, (refl, (refl, (refl, (refl, (refl, tt))))))))), refl),
        refl,
        ((refl, refl, omega arith), refl, ((refl, (refl, (refl, tt))), refl)),
      )
      refl

abbrev put_a : Str → System × Request
put_a authorization = (disk, put_request authorization (b'a' ∷ []) form_type readme_body)

abbrev two_requests : List (System × Request)
two_requests = put_a (bearer ++ token) ∷ put_a [] ∷ []

abbrev two_changes : List Change
two_changes = some (b'a' ∷ [], some (2 ∷ [])) ∷ none ∷ []

two_requests-AllSay : AllSay one_query token two_requests two_changes
two_requests-AllSay =
    (puts (b'a' ∷ []) (2 ∷ []) refl refl refl refl readme_body-IsBody, (lacks_token refl, tt))

run_requests-Holds_example :
    Agrees
      (find_str (b'a' ∷ []) (run_requests one_query two_requests empty_server).sets)
      (some (2 ∷ []))
run_requests-Holds_example =
    run_requests-Holds one_query two_requests two_changes empty_server no_sets two_requests-AllSay
      (λ name. tt) (b'a' ∷ [])

run_requests-accepted_example :
    (unauthorized_ones one_query two_requests empty_server ≡ false ∷ true ∷ [])
    × (run_requests one_query two_requests empty_server
        ≡ run_requests one_query (put_a (bearer ++ token) ∷ []) empty_server)
run_requests-accepted_example = run_requests-accepted one_query two_requests empty_server

disk-Works : (file : Str) → Works disk file
disk-Works file = record {
  makes = refl;
  writes =
      λ s. write_file-some in_memory ([], refl) (λ w bytes. (w ++ bytes, refl)) (λ w. (w, refl)) s;
  removed = refl;
}

abbrev entry_a : Str
entry_a = (b'a' ∷ []) ++ extension

abbrev file_a : Str
file_a = file_of (b'd' ∷ []) (b'a' ∷ [])

-- It is "d/a.sxset".
file_a-entry_a : file_a ≡ b'd' ∷ b'/' ∷ entry_a
unfolding join fields_from
file_a-entry_a = refl

-- The names "/a" and "x/../a" share it.
file_a-slash : file_of (b'd' ∷ []) (b'/' ∷ b'a' ∷ []) ≡ file_a
unfolding join fields_from
file_a-slash = refl

file_a-up : file_of (b'd' ∷ []) (b'x' ∷ b'/' ∷ b'.' ∷ b'.' ∷ b'/' ∷ b'a' ∷ []) ≡ file_a
unfolding join fields_from
file_a-up = refl

abbrev entries : List DirEntry
entries =
    record {
      entry_name = entry_a;
      is_dir = false;
      content = find_str file_a (run_requests one_query two_requests empty_server).files;
    }
    ∷ []

new_store-run_requests_example :
    Agrees
      (find_str (b'a' ∷ []) (new_store (b'd' ∷ []) token (some entries) []).sets)
      (some (2 ∷ []))
new_store-run_requests_example =
    new_store-run_requests one_query two_requests two_changes empty_server no_sets (b'a' ∷ [])
      entries [] two_requests-AllSay ((refl, tt), tt) (refl, tt)
      (disk-Works file_a, (disk-Works file_a, tt)) refl (λ name. tt) tt (refl, tt) refl

abbrev server : SetStore
server = record {
  sets = (b'a' ∷ [], new_set (5 ∷ 3 ∷ [])) ∷ (b'b' ∷ [], new_set (7 ∷ 3 ∷ [])) ∷ [];
  data_dir = b'd' ∷ [];
  token = token;
  files = [];
}

abbrev catalog : Catalog
catalog name =
    if str_eq (b'a' ∷ []) name
    then some (5 ∷ 3 ∷ [])
    else if str_eq (b'b' ∷ []) name
    then some (7 ∷ 3 ∷ [])
    else none

server-Holds : Holds server.sets catalog
server-Holds name = elim (Bool-cases (str_eq (b'a' ∷ []) name)) [
  | inl e ↦ rw e (Agrees-new_set (5 ∷ 3 ∷ []))
  | inr e ↦ rw e (elim (Bool-cases (str_eq (b'b' ∷ []) name)) [
    | inl f ↦ rw f (Agrees-new_set (7 ∷ 3 ∷ []))
    | inr f ↦ rw f tt
  ])
]

has_request-answer_example :
    (handle_request disk one_query server (has_request (bearer ++ token) (b'a' ∷ []) 3)).0
    ≡ has_answer (b'a' ∷ []) (some (5 ∷ 3 ∷ [])) 3
has_request-answer_example =
    has_request-answer disk one_query server catalog (bearer ++ token) (b'a' ∷ []) 3 server-Holds
      refl (omega arith)

put_request-answer_example :
    (handle_request disk one_query server
      (put_request (bearer ++ token) (b'a' ∷ []) form_type readme_body)).0
    ≡ write_json 201 (stored (b'a' ∷ []) 1 true)
put_request-answer_example =
    put_request-answer disk one_query server (bearer ++ token) (b'a' ∷ []) form_type readme_body
      (decoded (2 ∷ [])) refl readme_body-IsBody

intersect_request-answer_example :
    CombinesDecoded catalog
      (λ q. in_every catalog q.sets)
      (decoded query)
      (handle_request disk one_query server (combine_request intersect_path (bearer ++ token) [])).0
intersect_request-answer_example =
    intersect_request-answer disk one_query server catalog (bearer ++ token) [] server-Holds refl

union_request-answer_example :
    CombinesDecoded catalog
      (λ q. in_some catalog q.sets)
      (decoded query)
      (handle_request disk one_query server (combine_request union_path (bearer ++ token) [])).0
union_request-answer_example =
    union_request-answer disk one_query server catalog (bearer ++ token) [] server-Holds refl

abbrev listed : List (ℕ × ℕ)
listed = (5, b',') ∷ (12, b'\n') ∷ []

parse_ids-text_of_example :
    parse_ids one_query (put_request [] (b'a' ∷ []) [] (text_of listed)) ≡ decoded (5 ∷ 12 ∷ [])
unfolding contains_str format_uint
parse_ids-text_of_example =
    parse_ids-text_of one_query (put_request [] (b'a' ∷ []) [] (text_of listed)) listed refl refl
      (omega arith, refl, (omega arith, refl, tt)) (omega arith)
