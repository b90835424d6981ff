-- ===== src/Server/Storable.antt =====
-- The IDs that a request stores can be kept in a file.
use setrixdb.Base.{
  ltb, ◌==◌, ==_refl, Bool-cases, Option-cases, length, take, length-take, elem, Below, lt_of_elem,
  select, unique, elem-unique, unique-IsUnique, length_of_same_elems, IsUnique-of_IsStrict, u64_mod,
  ℕ, ◌+◌, ◌≤◌, ◌<◌, ◌≡◌, sym, ap, ◌∙◌, subst, inl, inr, Bool, true, not, List, [], ◌∷◌, ◌++◌, arith,
}
use setrixdb.Std.Strings.{Str, fields_from, put_field, contains_str}
use setrixdb.Std.Strconv.{parse_uint}
use setrixdb.Std.Strconv.Laws.{parse_uint-lt}
use setrixdb.IdSet.{new_set, sorted_ids}
use setrixdb.IdSet.Laws.{member-new_set, sorted_ids_lem}
use setrixdb.Server.Request.{
  Request, Json, LimitedBody, Decoded, decoded, invalid, max_body, limit_body, parse_ids,
  parse_text, ids_of_tokens, is_separator, json_type,
}

-- The IDs that a request stores: 64-bit numbers, and not too many for the file.
abbrev pub AreStorable : List ℕ → Type 0
AreStorable ids = Below u64_mod ids × (length ids < u64_mod)

put_field-length : (w : Str) (fields : List Str) → length (put_field w fields) ≤ length fields + 1
put_field-length [] fields = omega arith
put_field-length (c ∷ w) fields = omega arith

fields_from-length :
    (is_sep : ℕ → Bool) (w s : Str) → length (fields_from is_sep w s) ≤ length s + 1
unfolding fields_from
fields_from-length is_sep w [] = put_field-length w []
fields_from-length is_sep w (c ∷ s) = elim (Bool-cases (is_sep c)) [
  | inl e ↦
      rw e (
        omega (arith, put_field-length w (fields_from is_sep [] s), fields_from-length is_sep [] s))
  | inr e ↦ rw e (omega (arith, fields_from-length is_sep (w ++ c ∷ []) s))
]

ids_of_tokens_bounds :
    (tokens : List Str)
    → Below u64_mod (ids_of_tokens tokens) × (length (ids_of_tokens tokens) ≤ length tokens)
unfolding ids_of_tokens
ids_of_tokens_bounds [] = (tt, omega arith)
ids_of_tokens_bounds (tok ∷ tokens) =
    let (below, short) = ids_of_tokens_bounds tokens in
    elim (Option-cases (parse_uint tok)) [
      | inl e ↦ rw e (below, omega (arith, short))
      | inr (v, e) ↦ rw e ((parse_uint-lt tok v e, below), omega (arith, short))
    ]

take-short : (n : ℕ) (s : Str) → length (take n s) ≤ n
take-short n s = omega (arith, length-take n s)

pub parse_ids-AreStorable :
    (json : Json) (r : Request) (ids : List ℕ) → parse_ids json r ≡ decoded ids → AreStorable ids
unfolding parse_ids limit_body parse_text
parse_ids-AreStorable json r ids h = elim (Bool-cases (contains_str r.content_type json_type)) [
  | inl e ↦
      let body : LimitedBody = record {
        bytes = take max_body r.body;
        cut = ltb max_body (length r.body);
      } in
      let read : json.decode_ids body ≡ decoded ids = rw e at h in
      (
        json.decode_ids-Below body ids read,
        omega (arith, json.decode_ids-length body ids read, take-short max_body r.body),
      )
  | inr e ↦
      let tokens = fields_from is_separator [] (take max_body r.body) in
      let (below, short) = ids_of_tokens_bounds tokens in
      let same : ids_of_tokens tokens ≡ ids = decoded_inj (rw e at h) in
      subst AreStorable same (
        below,
        omega (
          arith,
          short,
          fields_from-length is_separator [] (take max_body r.body),
          take-short max_body r.body,
        ),
      )
]
  where
    ids_in_decoded : Decoded (List ℕ) → List ℕ
    ids_in_decoded (decoded ids) = ids
    ids_in_decoded (invalid text) = []

    decoded_inj : {xs ys : List ℕ} → decoded xs ≡ decoded ys → xs ≡ ys
    decoded_inj e = ap ids_in_decoded e

Below-of_elem : (n : ℕ) (xs : List ℕ) → ((q : ℕ) → elem q xs ≡ true → q < n) → Below n xs
Below-of_elem n [] h = tt
Below-of_elem n (x ∷ xs) h =
    (h x (ground (arith, ==_refl x)), Below-of_elem n xs (λ q e. h q (ground arith)))

length-select : (p : ℕ → Bool) (xs : List ℕ) → length (select p xs) ≤ length xs
length-select p [] = omega arith
length-select p (x ∷ xs) = elim (Bool-cases (p x)) [
  | inl e ↦ rw e (omega (arith, length-select p xs))
  | inr e ↦ rw e (omega (arith, length-select p xs))
]

length-unique : (xs : List ℕ) → length (unique xs) ≤ length xs
length-unique [] = omega arith
length-unique (x ∷ xs) =
    omega (arith, length-select (λ (y : ℕ). not (y == x)) (unique xs), length-unique xs)

-- A new set of such IDs can be written and read back.
pub new_set-AreStorable :
    (ids : List ℕ)
    → AreStorable ids
    → Below u64_mod (sorted_ids (new_set ids)).0 × (length (sorted_ids (new_set ids)).0 < u64_mod)
new_set-AreStorable ids (below, short) =
    let (valid, members) = member-new_set ids in
    let (strict, same, _, _) = sorted_ids_lem (new_set ids) valid in
    let count =
      length_of_same_elems (sorted_ids (new_set ids)).0 (unique ids)
        (IsUnique-of_IsStrict (sorted_ids (new_set ids)).0 strict) (unique-IsUnique ids)
        (λ q. same q ∙ members q ∙ sym (elem-unique q ids)) in
    (
      Below-of_elem u64_mod (sorted_ids (new_set ids)).0
          (λ q e. lt_of_elem q u64_mod ids below (sym (same q ∙ members q) ∙ e)),
      omega (arith, count, length-unique ids, short),
    )
