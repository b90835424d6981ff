-- ===== src/Server/Runs.antt =====
-- The server over a list of requests.
use setrixdb.Base.{
  if◌then◌else◌, Bool-cases, ◌≡◌, refl, sym, ap, ap₂, ◌∙◌, subst, inl, inr, Bool, true, not, List,
  [], ◌∷◌,
}
use setrixdb.Std.Strings.{Str}
use setrixdb.Server.Request.{Request, Json}
use setrixdb.Server.Disk.{SetStore, System}
use setrixdb.Server.Handler.{is_refused, handle_request}
use setrixdb.Server.Catalog.{Catalog, Change, apply_change, run_requests, Holds}
use setrixdb.Server.Steps.{handle_request-Holds}
use setrixdb.Server.Fixed.{handle_request-IsFixed, handle_request-refused}
use setrixdb.Server.Asking.{carries, AllSay, catalog_of, effect_of-Says, is_refused-carries}
use setrixdb.Server.Refusals.{is_unauthorized, is_unauthorized-handle_request}

-- After any list of requests to a server that holds a catalogue, where the changes are what the requests
-- say, by their tokens, methods, paths and bodies of 64 MiB at most, the server holds the catalogue after
-- these changes: each name has exactly the IDs of the latest PUT to it with the token, no set if a DELETE
-- with the token came after, and what it had before if there was neither. The IDs of a PUT are those that
-- the JSON decoder gives, or, where it is not declared as JSON, the 64-bit numbers among the words.
pub run_requests-Holds :
    (json : Json) (requests : List (System × Request)) (changes : List Change) (s : SetStore)
    (m : Catalog)
    → AllSay json s.token requests changes
    → Holds s.sets m
    → Holds (run_requests json requests s).sets (catalog_of changes m)
unfolding run_requests
run_requests-Holds json [] [] s m say h = h
run_requests-Holds json [] (c ∷ changes) s m say h = absurd say
run_requests-Holds json ((os, r) ∷ requests) [] s m say h = absurd say
run_requests-Holds json ((os, r) ∷ requests) (c ∷ changes) s m (says, say) h =
    let s' = (handle_request os json s r).1 in
    let held : Holds s'.sets (apply_change c m) =
      subst (λ d. Holds s'.sets (apply_change d m)) (effect_of-Says json s.token r c says)
        (handle_request-Holds os json s m r h) in
    run_requests-Holds json requests changes s' (apply_change c m)
      (subst (λ t. AllSay json t requests changes) (sym ((handle_request-IsFixed os json s r).0))
        say)
      held

-- The requests that carry the token.
abbrev pub accepted : Str → List (System × Request) → List (System × Request)
accepted token [] = []
accepted token ((os, r) ∷ requests) =
    let rest = accepted token requests in
    if carries token r.authorization then (os, r) ∷ rest else rest

-- Which of the requests are answered 401.
unfoldable pub unauthorized_ones : Json → List (System × Request) → SetStore → List Bool
unauthorized_ones json [] s = []
unauthorized_ones json ((os, r) ∷ requests) s =
    let (answer, s') = handle_request os json s r in
    is_unauthorized answer ∷ unauthorized_ones json requests s'

-- Which of them do not carry the token.
abbrev pub lacking : Str → List (System × Request) → List Bool
lacking token [] = []
lacking token ((os, r) ∷ requests) = not (carries token r.authorization) ∷ lacking token requests

run_requests-only_accepted :
    (json : Json) (requests : List (System × Request)) (s : SetStore)
    → run_requests json requests s ≡ run_requests json (accepted s.token requests) s
unfolding run_requests
run_requests-only_accepted json [] s = refl
run_requests-only_accepted json ((os, r) ∷ requests) s =
    let s' = (handle_request os json s r).1 in
    elim (Bool-cases (carries s.token r.authorization)) [
      | inl e ↦ rw e (
          subst (λ t. run_requests json requests s' ≡ run_requests json (accepted t requests) s')
            ((handle_request-IsFixed os json s r).0) (run_requests-only_accepted json requests s'))
      | inr e ↦
          let refused : is_refused s.token r ≡ true = is_refused-carries s.token r ∙ ap not e in
          rw (handle_request-refused os json s r refused, e)
            (run_requests-only_accepted json requests s)
    ]

unauthorized_ones-lacking :
    (json : Json) (requests : List (System × Request)) (s : SetStore)
    → unauthorized_ones json requests s ≡ lacking s.token requests
unfolding unauthorized_ones
unauthorized_ones-lacking json [] s = refl
unauthorized_ones-lacking json ((os, r) ∷ requests) s =
    let s' = (handle_request os json s r).1 in
    ap₂ ◌∷◌ (is_unauthorized-handle_request os json s r) (
      unauthorized_ones-lacking json requests s'
      ∙ ap (λ t. lacking t requests) ((handle_request-IsFixed os json s r).0))

-- Whatever the requests, exactly those whose header is not "Bearer " and the token of the server are
-- answered 401, where the token is not empty, and none where it is; and they have no effect on the sets or
-- on the files: the other requests alone leave the same store.
pub run_requests-accepted :
    (json : Json) (requests : List (System × Request)) (s : SetStore)
    → (unauthorized_ones json requests s ≡ lacking s.token requests)
      × (run_requests json requests s ≡ run_requests json (accepted s.token requests) s)
run_requests-accepted json requests s =
    (unauthorized_ones-lacking json requests s, run_requests-only_accepted json requests s)
