-- ===== src/Server/Text.antt =====
-- A body in plain text: the IDs in decimal, each ended by a separator.
use setrixdb.Base.{
  none_ne_some, length, take_all, u64_mod, ℕ, ◌≤◌, ◌<◌, ◌≡◌, refl, ap, ◌∙◌, true, false, some, List,
  [], ◌∷◌, ◌++◌, arith,
}
use setrixdb.Std.Strings.{Str, fields_from, contains_str, put_field}
use setrixdb.Std.Strings.Laws.{HasNone, fields_from-append}
use setrixdb.Std.Strconv.{parse_uint, format_uint, is_digit}
use setrixdb.Std.Strconv.Laws.{AllDigits, parse_uint-format_uint, format_uint-AllDigits}
use setrixdb.Server.Request.{
  Request, Json, decoded, max_body, limit_body, parse_ids, parse_text, ids_of_tokens, is_separator,
  json_type,
}

-- The text of IDs, with the separator after each.
abbrev pub text_of : List (ℕ × ℕ) → Str
text_of [] = []
text_of ((id, separator) ∷ ids) = format_uint id ++ separator ∷ text_of ids

abbrev pub ids_in : List (ℕ × ℕ) → List ℕ
ids_in [] = []
ids_in ((id, separator) ∷ ids) = id ∷ ids_in ids

abbrev pub AreSeparated : List (ℕ × ℕ) → Type 0
AreSeparated [] = Unit
AreSeparated ((id, separator) ∷ ids) =
    (id < u64_mod) × (is_separator separator ≡ true) × AreSeparated ids

HasNone-AllDigits : (s : Str) → AllDigits s → HasNone is_separator s
HasNone-AllDigits [] a = tt
HasNone-AllDigits (c ∷ s) a = (not_separator c a.0, HasNone-AllDigits s a.1)
  where
    not_separator : (c : ℕ) → is_digit c ≡ true → is_separator c ≡ false
    not_separator c h = ground arith

pub put_field-cons :
    (w : Str) (v : ℕ) (fields : List Str)
    → parse_uint w ≡ some v
    → ids_of_tokens (put_field w fields) ≡ v ∷ ids_of_tokens fields
unfolding ids_of_tokens
put_field-cons [] v fields h = absurd (none_ne_some v (unfold parse_uint in h))
put_field-cons (c ∷ w) v fields h = rw h refl

fields_of-text_of :
    (ids : List (ℕ × ℕ))
    → AreSeparated ids
    → ids_of_tokens (fields_from is_separator [] (text_of ids)) ≡ ids_in ids
fields_of-text_of [] a = unfold fields_from ids_of_tokens in refl
fields_of-text_of ((id, separator) ∷ ids) (short, e, a) =
    ap ids_of_tokens (
      fields_from-append is_separator (format_uint id) separator (text_of ids)
        (HasNone-AllDigits (format_uint id) (format_uint-AllDigits id)) e)
    ∙ put_field-cons (format_uint id) id (fields_from is_separator [] (text_of ids))
        (parse_uint-format_uint id short)
    ∙ ap (◌∷◌ id) (fields_of-text_of ids a)

-- A body of 64-bit IDs in decimal, each ended by a separator, of 64 MiB at most and not declared as JSON,
-- is read as these IDs.
pub parse_ids-text_of :
    (json : Json) (r : Request) (ids : List (ℕ × ℕ))
    → r.body ≡ text_of ids
    → contains_str r.content_type json_type ≡ false
    → AreSeparated ids
    → length (text_of ids) ≤ max_body
    → parse_ids json r ≡ decoded (ids_in ids)
unfolding parse_ids limit_body parse_text
parse_ids-text_of json r ids e plain a short =
    rw (plain, e, take_all max_body (text_of ids) short) (ap decoded (fields_of-text_of ids a))
