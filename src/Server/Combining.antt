-- ===== src/Server/Combining.antt =====
-- What POST /intersect and POST /union answer, in terms of the catalogue.
use setrixdb.Base.{
  ltb, if◌then◌else◌, Bool-cases, length, set, elem, IsStrict, ℕ, ◌≤◌, ◌≡◌, refl, ap₂, ◌∙◌, inl,
  inr, Bool, true, false, ◌&&◌, ◌||◌, Option, none, some, List, [], ◌∷◌, arith,
}
use setrixdb.Std.Strings.{Str}
use setrixdb.IdSet.{IdSet, len, sorted_ids, finalize, intersect, union}
use setrixdb.IdSet.Algebra.{member_of_all, member_of_any, member-intersect, member-union}
use setrixdb.IdSet.Laws.{IsValid, member, finalize_lem}
use setrixdb.Server.Request.{
  Request, Json, SetQuery, Decoded, decoded, invalid, limit_body, Response, write_json, err_json,
  too_few_sets, invalid_body, unknown_set, combined,
}
use setrixdb.Server.Disk.{SetStore, System}
use setrixdb.Server.Routes.{
  post_method, intersect_path, union_path, Parts, parts, missing, parts_of, combine_parts,
  combine_decoded, combine_sets,
}
use setrixdb.Server.Handler.{endpoint_of, serve_endpoint, is_refused, handle_request}
use setrixdb.Server.Catalog.{Catalog, Agrees, Holds}
use setrixdb.Server.Keeping.{
  first_unknown, RepresentAll, AreParts, parts_of-AreParts, RepresentAll-AllValid,
}

abbrev pub has_entry : ℕ → Option (List ℕ) → Bool
has_entry q none = false
has_entry q (some ids) = elem q ids

-- Whether an ID is among those of every name, or of some name.
abbrev pub in_every : Catalog → List Str → ℕ → Bool
in_every m [] q = true
in_every m (n ∷ names) q = has_entry q (m n) && in_every m names q

abbrev pub in_some : Catalog → List Str → ℕ → Bool
in_some m [] q = false
in_some m (n ∷ names) q = has_entry q (m n) || in_some m names q

-- The answer that counts, and on demand lists, the IDs that pass a test, each once and in order.
abbrev pub Combines : SetQuery → (ℕ → Bool) → Response → Type 0
Combines q test response =
    (ids : List ℕ) × IsStrict ids
    × ((x : ℕ) → elem x ids ≡ test x)
    × (response ≡ write_json 200 (combined (length ids) q.sets (if q.list then some ids else none)))

-- The answer by the first name that the catalogue does not have.
abbrev pub CombinesKnown : SetQuery → (ℕ → Bool) → Option Str → Response → Type 0
CombinesKnown q test (some n) response = response ≡ err_json 404 (unknown_set n)
CombinesKnown q test none response = Combines q test response

has_entry-member :
    (set : IdSet) (v : Option (List ℕ)) (q : ℕ) → Agrees (some set) v → member set q ≡ has_entry q v
has_entry-member set none q a = absurd a
has_entry-member set (some ids) q a = a.1 q

in_every-member_of_all :
    (m : Catalog) (names : List Str) (sets : List IdSet) (q : ℕ)
    → RepresentAll m names sets
    → member_of_all q sets ≡ in_every m names q
in_every-member_of_all m [] [] q r = refl
in_every-member_of_all m [] (set ∷ sets) q r = absurd r
in_every-member_of_all m (n ∷ names) [] q r = absurd r
in_every-member_of_all m (n ∷ names) (set ∷ sets) q r =
    ap₂ ◌&&◌ (has_entry-member set (m n) q r.0) (in_every-member_of_all m names sets q r.1)

in_some-member_of_any :
    (m : Catalog) (names : List Str) (sets : List IdSet) (q : ℕ)
    → RepresentAll m names sets
    → member_of_any q sets ≡ in_some m names q
in_some-member_of_any m [] [] q r = refl
in_some-member_of_any m [] (set ∷ sets) q r = absurd r
in_some-member_of_any m (n ∷ names) [] q r = absurd r
in_some-member_of_any m (n ∷ names) (set ∷ sets) q r =
    ap₂ ◌||◌ (has_entry-member set (m n) q r.0) (in_some-member_of_any m names sets q r.1)

finalize_sorted : (s : IdSet) → s.sorted ≡ true → finalize s ≡ s
unfolding finalize
finalize_sorted s e = rw e

-- What is counted and listed of a valid result.
answered :
    (q : SetQuery) (test : ℕ → Bool) (res : IdSet)
    → IsValid res
    → ((x : ℕ) → member res x ≡ test x)
    → Combines q test (
        write_json 200
          (combined (len res).0 q.sets (if q.list then some (sorted_ids (len res).1).0 else none)))
unfolding len sorted_ids
answered q test res v same =
    let (sorted, strict, kept) = finalize_lem res v in
    (
      (finalize res).ids,
      strict,
      λ x. kept x ∙ same x,
      rw (finalize_sorted (finalize res) sorted) refl,
    )

combine_parts-intersect :
    (s : SetStore) (m : Catalog) (q : SetQuery) (found : Parts)
    → 2 ≤ length q.sets
    → AreParts m q.sets found
    → CombinesKnown q
        (in_every m q.sets)
        (first_unknown m q.sets)
        (combine_parts s intersect_path q found).0
unfolding combine_parts
combine_parts-intersect s m q (missing n) two a = rw a refl
combine_parts-intersect s m q (parts []) two a = absurd (none_empty q.sets two a.1)
  where
    none_empty : (names : List Str) → 2 ≤ length names → RepresentAll m names [] → ⊥
    none_empty [] two r = absurd (omega arith)
    none_empty (n ∷ names) two r = r
combine_parts-intersect s m q (parts (set ∷ sets)) two a =
    let (valid, members, _, _) =
      member-intersect set sets (RepresentAll-AllValid m q.sets (set ∷ sets) a.1) in
    rw (a.0) (
      answered q (in_every m q.sets) (intersect (set ∷ sets)).0 valid
        (λ x. members x ∙ in_every-member_of_all m q.sets (set ∷ sets) x a.1))

combine_parts-union :
    (s : SetStore) (m : Catalog) (q : SetQuery) (found : Parts)
    → AreParts m q.sets found
    → CombinesKnown q
        (in_some m q.sets)
        (first_unknown m q.sets)
        (combine_parts s union_path q found).0
unfolding combine_parts
combine_parts-union s m q (missing n) a = rw a refl
combine_parts-union s m q (parts sets) a =
    let (valid, members, _, _) = member-union sets (RepresentAll-AllValid m q.sets sets a.1) in
    rw (a.0) (
      answered q (in_some m q.sets) (union sets).0 valid
        (λ x. members x ∙ in_some-member_of_any m q.sets sets x a.1))

abbrev pub combine_request : Str → Str → Str → Request
combine_request path authorization body = record {
  method = post_method;
  path = path;
  authorization = authorization;
  content_type = [];
  query_id = [];
  body = body;
}

-- The answer to a body: 400 where it cannot be decoded or names fewer than two sets.
abbrev pub CombinesDecoded : Catalog → (SetQuery → ℕ → Bool) → Decoded SetQuery → Response → Type 0
CombinesDecoded m test (invalid text) response = response ≡ err_json 400 (invalid_body text)
CombinesDecoded m test (decoded q) response =
    if ltb (length q.sets) 2
    then response ≡ err_json 400 too_few_sets
    else CombinesKnown q (test q) (first_unknown m q.sets) response

module _ (os : System) (json : Json) (s : SetStore) (m : Catalog) (h : Holds s.sets m) where
  intersect_decoded :
      (q : Decoded SetQuery)
      → CombinesDecoded m (λ q. in_every m q.sets) q (combine_decoded s intersect_path q).0
  unfolding combine_decoded
  intersect_decoded (invalid text) = refl
  intersect_decoded (decoded q) = elim (Bool-cases (ltb (length q.sets) 2)) [
    | inl few ↦ rw few refl
    | inr many ↦ rw many (
        combine_parts-intersect s m q (parts_of s.sets q.sets) (ground arith)
          (parts_of-AreParts s.sets m q.sets h))
  ]

  union_decoded :
      (q : Decoded SetQuery)
      → CombinesDecoded m (λ q. in_some m q.sets) q (combine_decoded s union_path q).0
  unfolding combine_decoded
  union_decoded (invalid text) = refl
  union_decoded (decoded q) = elim (Bool-cases (ltb (length q.sets) 2)) [
    | inl few ↦ rw few refl
    | inr many ↦
        rw many
          (combine_parts-union s m q (parts_of s.sets q.sets) (parts_of-AreParts s.sets m q.sets h))
  ]

-- `POST /intersect` with the token is answered by the catalogue: 400 where the body cannot be decoded
-- or names fewer than two sets, 404 with the first name that has no set, and otherwise the number, and
-- on demand the ascending list, of the IDs that every name has.
pub intersect_request-answer :
    (os : System) (json : Json) (s : SetStore) (m : Catalog) (authorization body : Str)
    → Holds s.sets m
    → is_refused s.token (combine_request intersect_path authorization body) ≡ false
    → CombinesDecoded m
        (λ q. in_every m q.sets)
        (json.decode_query (limit_body body))
        (handle_request os json s (combine_request intersect_path authorization body)).0
unfolding handle_request endpoint_of serve_endpoint combine_sets
intersect_request-answer os json s m authorization body h e =
    rw e (intersect_decoded os json s m h (json.decode_query (limit_body body)))

-- `POST /union` with the token is answered by the catalogue: 400 where the body cannot be decoded or names
-- fewer than two sets, 404 with the first name that has no set, and otherwise the number, and on demand
-- the ascending list, of the IDs that some name has.
pub union_request-answer :
    (os : System) (json : Json) (s : SetStore) (m : Catalog) (authorization body : Str)
    → Holds s.sets m
    → is_refused s.token (combine_request union_path authorization body) ≡ false
    → CombinesDecoded m
        (λ q. in_some m q.sets)
        (json.decode_query (limit_body body))
        (handle_request os json s (combine_request union_path authorization body)).0
unfolding handle_request endpoint_of serve_endpoint combine_sets
union_request-answer os json s m authorization body h e =
    rw e (union_decoded os json s m h (json.decode_query (limit_body body)))
