-- ===== src/Server/Asking.antt =====
-- The change that a request asks for: the token that it carries, its method, its path and its body.
use setrixdb.Base.{
  str_eq, if◌then◌else◌, ℕ, ◌≡◌, refl, ◌∙◌, Bool, true, false, not, none, some, List, [], ◌∷◌, ◌++◌,
  arith,
}
use setrixdb.Std.Strings.{Str, is_empty, has_prefix, trim_prefix}
use setrixdb.Std.Strings.Laws.{HasNone}
use setrixdb.Std.FilePath.{is_slash}
use setrixdb.Server.Request.{Request, Json, decoded, invalid, parse_ids}
use setrixdb.Server.Disk.{System}
use setrixdb.Server.Routes.{put_method, delete_method, sets_prefix}
use setrixdb.Server.Handler.{is_refused}
use setrixdb.Server.Catalog.{Catalog, Change, put_change, change_of, effect_of, apply_change}
use setrixdb.Server.Steps.{put_change_empty}
use setrixdb.Server.Meaning.{IsBody, parse_ids-IsBody}

-- Whether the header is "Bearer " and the token; a server with the empty token asks for none.
abbrev pub carries : Str → Str → Bool
carries [] authorization = true
carries (c ∷ token) authorization =
    str_eq authorization (b'B' ∷ b'e' ∷ b'a' ∷ b'r' ∷ b'e' ∷ b'r' ∷ b' ' ∷ c ∷ token)

-- The change that a request to a server with the token asks for.
pub data Says (json : Json) (token : Str) (r : Request) : Change → Type 0 where
  -- `PUT /sets/{name}` with IDs gives them to the name.
  puts :
      (name : Str) (ids : List ℕ)
      → carries token r.authorization ≡ true
      → r.method ≡ put_method
      → r.path ≡ sets_prefix ++ name
      → is_empty name ≡ false
      → IsBody json r.content_type r.body (decoded ids)
      → Says json token r (some (name, some ids))
  -- Neither a body that cannot be read nor an empty name changes anything.
  is_unreadable :
      (name text : Str)
      → r.method ≡ put_method
      → r.path ≡ sets_prefix ++ name
      → IsBody json r.content_type r.body (invalid text)
      → Says json token r none
  names_nothing : r.method ≡ put_method → r.path ≡ sets_prefix → Says json token r none
  -- `DELETE /sets/{name}` takes them from the name.
  deletes :
      (name : Str)
      → carries token r.authorization ≡ true
      → r.method ≡ delete_method
      → r.path ≡ sets_prefix ++ name
      → Says json token r (some (name, none))
  -- Nothing else changes anything: another method, another path, a request without the token.
  reads :
      str_eq r.method put_method ≡ false
      → str_eq r.method delete_method ≡ false
      → Says json token r none
  is_elsewhere : has_prefix r.path sets_prefix ≡ false → Says json token r none
  lacks_token : carries token r.authorization ≡ false → Says json token r none

-- What each of the requests says.
abbrev pub AllSay : Json → Str → List (System × Request) → List Change → Type 0
AllSay json token [] [] = Unit
AllSay json token [] (c ∷ changes) = ⊥
AllSay json token ((os, r) ∷ requests) [] = ⊥
AllSay json token ((os, r) ∷ requests) (c ∷ changes) =
    Says json token r c × AllSay json token requests changes

-- The catalogue after the changes.
abbrev pub catalog_of : List Change → Catalog → Catalog
catalog_of [] m = m
catalog_of (c ∷ changes) m = catalog_of changes (apply_change c m)

-- The names that are changed have no '/'.
abbrev pub ArePlain : List Change → Type 0
ArePlain [] = Unit
ArePlain (none ∷ changes) = ArePlain changes
ArePlain (some (name, v) ∷ changes) = HasNone is_slash name × ArePlain changes

pub is_refused-carries :
    (token : Str) (r : Request) → is_refused token r ≡ not (carries token r.authorization)
is_refused-carries [] r = refl
is_refused-carries (c ∷ token) r = refl

module _ (json : Json) (token : Str) (r : Request) where
  accepted_change :
      (c : Change)
      → carries token r.authorization ≡ true
      → change_of json r ≡ c
      → effect_of json token r ≡ c
  accepted_change c e same = rw (is_refused-carries token r, e) same

  harmless : change_of json r ≡ none → effect_of json token r ≡ none
  harmless same = none_of (is_refused token r) (change_of json r) same
    where
      none_of : (b : Bool) (c : Change) → c ≡ none → (if b then none else c) ≡ none
      none_of true c e = refl
      none_of false c e = e

  change_of-put :
      (name : Str)
      → r.method ≡ put_method
      → r.path ≡ sets_prefix ++ name
      → change_of json r ≡ put_change name (parse_ids json r)
  unfolding has_prefix trim_prefix
  change_of-put name e p = rw (e, p) refl

  -- The change that the code makes is the one that the request asks for.
  pub effect_of-Says : (c : Change) → Says json token r c → effect_of json token r ≡ c
  unfolding has_prefix trim_prefix
  effect_of-Says _ (puts name ids a e p ne body) =
      let read : parse_ids json r ≡ decoded ids = parse_ids-IsBody json r (decoded ids) body in
      accepted_change (some (name, some ids)) a (change_of-put name e p ∙ rw (read, ne) refl)
  effect_of-Says _ (is_unreadable name text e p body) =
      let read : parse_ids json r ≡ invalid text = parse_ids-IsBody json r (invalid text) body in
      harmless (change_of-put name e p ∙ rw read refl)
  effect_of-Says _ (names_nothing e p) =
      harmless (change_of-put [] e p ∙ put_change_empty [] (parse_ids json r) refl)
  effect_of-Says _ (deletes name a e p) = accepted_change (some (name, none)) a (rw (e, p) refl)
  effect_of-Says _ (reads e₁ e₂) = harmless (rw (e₁, e₂) refl)
  effect_of-Says _ (is_elsewhere e) = harmless (ground (arith, e))
  effect_of-Says _ (lacks_token e) = rw (is_refused-carries token r, e) refl
