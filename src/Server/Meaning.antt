-- ===== src/Server/Meaning.antt =====
-- What a request says: the IDs of its body, the token that it carries, and the change that it asks for.
use setrixdb.Base.{
  Bool-cases, length, take_all, u64_mod, ltb, leb, ltb→lt, lt→ltb, some, ℕ, ◌≤◌, ◌<◌, ◌≡◌, refl, ap,
  ◌∙◌, inl, inr, Bool, true, false, ◌||◌, not, none, List, [], ◌∷◌, ◌++◌, arith, ◌+◌, ◌*◌, ◌-◌,
}
use setrixdb.Std.Strings.{Str, is_empty, fields_from, contains_str, put_field}
use setrixdb.Std.Strings.Laws.{HasNone, fields_from-append, fields_from_word_end}
use setrixdb.Std.Strconv.{parse_uint, parse_digits, is_digit}
use setrixdb.Server.Request.{
  Request, Json, Decoded, decoded, max_body, limit_body, parse_ids, parse_text, ids_of_tokens,
  is_separator, json_type,
}
use setrixdb.Server.Text.{put_field-cons}

-- A word of a text, which is a number or anything else.
pub data Word : Type 0 where
  number noise : Str → Word

abbrev pub letters : Word → Str
letters (number w) = w
letters (noise w) = w

abbrev pub has_other : Str → Bool
has_other [] = false
has_other (c ∷ w) = not (is_digit c) || has_other w

-- The value of the digits, after those of `n`.
abbrev pub decimal : ℕ → Str → ℕ
decimal n [] = n
decimal n (c ∷ w) = decimal (10 * n + (c - b'0')) w

-- A number is one digit or more, of a value of 64 bits; anything else is empty, has a byte that is no
-- digit, or is too large.
abbrev pub IsWord : Word → Type 0
IsWord (number w) = (is_empty w ≡ false) × (has_other w ≡ false) × (decimal 0 w < u64_mod)
IsWord (noise w) =
    HasNone is_separator w × (is_empty w || (has_other w || leb u64_mod (decimal 0 w)) ≡ true)

-- Words, each with the separator after it, and the last word.
abbrev pub words_text : List (Word × ℕ) → Word → Str
words_text [] last = letters last
words_text ((w, separator) ∷ words) last = letters w ++ separator ∷ words_text words last

abbrev pub AreWords : List (Word × ℕ) → Word → Type 0
AreWords [] last = IsWord last
AreWords ((w, separator) ∷ words) last =
    IsWord w × (is_separator separator ≡ true) × AreWords words last

abbrev pub add_number : Word → List ℕ → List ℕ
add_number (number w) ids = decimal 0 w ∷ ids
add_number (noise w) ids = ids

abbrev pub numbers_in : List (Word × ℕ) → Word → List ℕ
numbers_in [] last = add_number last []
numbers_in ((w, separator) ∷ words) last = add_number w (numbers_in words last)

-- What a body of 64 MiB at most says: the list that the JSON decoder gives, where it is declared as
-- JSON, and otherwise the numbers among its words.
pub data IsBody (json : Json) (content_type body : Str) : Decoded (List ℕ) → Type 0 where
  as_json :
      {result : Decoded (List ℕ)}
      → contains_str content_type json_type ≡ true
      → length body ≤ max_body
      → json.decode_ids (record { bytes = body; cut = false }) ≡ result
      → IsBody json content_type body result
  as_text :
      (words : List (Word × ℕ)) (last : Word)
      → contains_str content_type json_type ≡ false
      → length body ≤ max_body
      → AreWords words last
      → body ≡ words_text words last
      → IsBody json content_type body (decoded (numbers_in words last))

decimal-least : (n : ℕ) (w : Str) → n ≤ decimal n w
decimal-least n [] = omega arith
decimal-least n (c ∷ w) = omega (arith, decimal-least (10 * n + (c - b'0')) w)

-- Digits are read as their value, where it has 64 bits.
parse_digits-decimal :
    (n : ℕ) (w : Str)
    → has_other w ≡ false
    → decimal n w < u64_mod
    → parse_digits n w ≡ some (decimal n w)
unfolding parse_digits
parse_digits-decimal n [] d short = refl
parse_digits-decimal n (c ∷ w) d short =
    let step : n * 10 + (c - b'0') ≡ 10 * n + (c - b'0') = omega arith in
    let small : ltb (10 * n + (c - b'0')) u64_mod ≡ true =
      lt→ltb (10 * n + (c - b'0')) u64_mod
        (omega (arith, decimal-least (10 * n + (c - b'0')) w, short)) in
    let digit : is_digit c ≡ true = ground (arith, d) in
    let rest : has_other w ≡ false = ground (arith, d) in
    rw (step, digit, small) (parse_digits-decimal (10 * n + (c - b'0')) w rest short)

-- Anything else is not read.
parse_digits-none :
    (n : ℕ) (w : Str)
    → n < u64_mod
    → has_other w || leb u64_mod (decimal n w) ≡ true
    → parse_digits n w ≡ none
unfolding parse_digits
parse_digits-none n [] short h = absurd (ground (arith, h, short))
parse_digits-none n (c ∷ w) short h =
    let step : n * 10 + (c - b'0') ≡ 10 * n + (c - b'0') = omega arith in
    rw step (elim (Bool-cases (is_digit c)) [
      | inl e ↦ elim (Bool-cases (ltb (10 * n + (c - b'0')) u64_mod)) [
        | inl f ↦
            rw (e, f)
              (parse_digits-none (10 * n + (c - b'0')) w (ltb→lt (10 * n + (c - b'0')) u64_mod f)
                (rw e at h))
        | inr f ↦ rw (e, f) refl
      ]
      | inr e ↦ rw e refl
    ])

put_field-word :
    (w : Word) (fields : List Str)
    → IsWord w
    → ids_of_tokens (put_field (letters w) fields) ≡ add_number w (ids_of_tokens fields)
put_field-word (number []) fields (e, d, short) = cc
put_field-word (number (c ∷ w)) fields (e, d, short) =
    put_field-cons (c ∷ w) (decimal 0 (c ∷ w)) fields
      (unfold parse_uint in parse_digits-decimal 0 (c ∷ w) d short)
put_field-word (noise []) fields a = refl
put_field-word (noise (c ∷ w)) fields a =
    let nothing : parse_uint (c ∷ w) ≡ none =
      unfold parse_uint in parse_digits-none 0 (c ∷ w) (omega arith) (a.1) in
    unfold ids_of_tokens in rw nothing refl

HasNone-digits : (w : Str) → has_other w ≡ false → HasNone is_separator w
HasNone-digits [] d = tt
HasNone-digits (c ∷ w) d =
    (not_separator c (ground (arith, d)), HasNone-digits w (ground (arith, d)))
  where
    not_separator : (c : ℕ) → is_digit c ≡ true → is_separator c ≡ false
    not_separator c h = ground arith

HasNone-letters : (w : Word) → IsWord w → HasNone is_separator (letters w)
HasNone-letters (number w) (e, d, short) = HasNone-digits w d
HasNone-letters (noise w) a = a.0

fields_of-words_text :
    (words : List (Word × ℕ)) (last : Word)
    → AreWords words last
    → ids_of_tokens (fields_from is_separator [] (words_text words last)) ≡ numbers_in words last
fields_of-words_text [] last a =
    ap ids_of_tokens (fields_from_word_end is_separator (letters last) (HasNone-letters last a))
    ∙ put_field-word last [] a
    ∙ ap (add_number last) (unfold ids_of_tokens in refl)
fields_of-words_text ((w, separator) ∷ words) last (a, e, rest) =
    ap ids_of_tokens (
      fields_from-append is_separator (letters w) separator (words_text words last)
        (HasNone-letters w a) e)
    ∙ put_field-word w (fields_from is_separator [] (words_text words last)) a
    ∙ ap (add_number w) (fields_of-words_text words last rest)

-- The code reads a body as what it says.
pub parse_ids-IsBody :
    (json : Json) (r : Request) (result : Decoded (List ℕ))
    → IsBody json r.content_type r.body result
    → parse_ids json r ≡ result
unfolding parse_ids limit_body parse_text
parse_ids-IsBody json r result (as_json e short read) =
    let whole : ltb max_body (length r.body) ≡ false = ground arith in
    rw (e, take_all max_body r.body short, whole) read
parse_ids-IsBody json r _ (as_text words last e short a same) =
    rw (e, take_all max_body r.body short)
      (ap decoded (
        ap (λ s. ids_of_tokens (fields_from is_separator [] s)) same
        ∙ fields_of-words_text words last a))
