-- ===== src/Server/Saying.antt =====
-- Every request with a body of 64 MiB at most says something.
use setrixdb.Base.{
  Bool-cases, length, u64_mod, leb, str_eq, str_eq→≡, ℕ, ◌≤◌, ◌≡◌, refl, sym, ap, ◌∙◌, inl, inr,
  true, false, ◌||◌, none, some, List, [], ◌∷◌, ◌++◌, arith,
}
use mathlib.Core.List.{append_assoc, append-nil}
use setrixdb.Std.Strings.{Str, is_empty, contains_str, has_prefix}
use setrixdb.Std.Strings.Laws.{HasNone}
use setrixdb.Server.Request.{
  Request, Json, Decoded, decoded, invalid, max_body, is_separator, json_type,
}
use setrixdb.Server.Disk.{System}
use setrixdb.Server.Routes.{put_method, delete_method, sets_prefix}
use setrixdb.Server.Catalog.{Change}
use setrixdb.Server.Meaning.{
  Word, number, noise, letters, has_other, decimal, IsWord, words_text, AreWords, numbers_in,
  IsBody, as_json, as_text,
}
use setrixdb.Server.Asking.{
  Says, puts, is_unreadable, names_nothing, deletes, reads, is_elsewhere, lacks_token, carries,
  AllSay,
}

word_of : (w : Str) → HasNone is_separator w → (v : Word) × IsWord v × (letters v ≡ w)
word_of w free = elim (Bool-cases (is_empty w || (has_other w || leb u64_mod (decimal 0 w)))) [
  | inl e ↦ (noise w, (free, e), refl)
  | inr e ↦ (number w, (ground (arith, e), ground (arith, e), ground (arith, e)), refl)
]

HasNone-snoc :
    (w : Str) (c : ℕ)
    → HasNone is_separator w
    → is_separator c ≡ false
    → HasNone is_separator (w ++ c ∷ [])
HasNone-snoc [] c free e = (e, tt)
HasNone-snoc (d ∷ w) c free e = (free.0, HasNone-snoc w c free.1 e)

-- Every text is the text of words.
words_of_text :
    (w s : Str)
    → HasNone is_separator w
    → (words : List (Word × ℕ)) × (last : Word) × AreWords words last
      × (w ++ s ≡ words_text words last)
words_of_text w [] free = let (v, a, e) = word_of w free in ([], v, a, append-nil w ∙ sym e)
words_of_text w (c ∷ s) free = elim (Bool-cases (is_separator c)) [
  | inl f ↦
      let (v, a, e) = word_of w free in
      let (words, last, rest, same) = words_of_text [] s tt in
      (
        (v, c) ∷ words,
        last,
        (a, f, rest),
        ap (λ t. w ++ c ∷ t) same ∙ ap (λ u. u ++ c ∷ words_text words last) (sym e),
      )
  | inr f ↦
      let (words, last, rest, same) = words_of_text (w ++ c ∷ []) s (HasNone-snoc w c free f) in
      (words, last, rest, sym (append_assoc w (c ∷ []) s) ∙ same)
]

IsBody-total :
    (json : Json) (content_type body : Str)
    → length body ≤ max_body
    → (result : Decoded (List ℕ)) × IsBody json content_type body result
IsBody-total json content_type body short =
    elim (Bool-cases (contains_str content_type json_type)) [
      | inl e ↦ (json.decode_ids (record { bytes = body; cut = false }), as_json e short refl)
      | inr e ↦
          let (words, last, a, same) = words_of_text [] body tt in
          (decoded (numbers_in words last), as_text words last e short a same)
    ]

cut_prefix : (s prefix : Str) → has_prefix s prefix ≡ true → (rest : Str) × (s ≡ prefix ++ rest)
unfolding has_prefix
cut_prefix s [] h = (s, refl)
cut_prefix [] (p ∷ prefix) h = cc
cut_prefix (c ∷ s) (p ∷ prefix) h =
    let (rest, same) = cut_prefix s prefix (ground (arith, h)) in
    let first : c ≡ p = ground (arith, h) in
    (rest, ap (λ t. c ∷ t) same ∙ ap (λ d. d ∷ (prefix ++ rest)) first)

module _ (json : Json) (token : Str) (r : Request) (short : length r.body ≤ max_body) where
  put-total :
      (name : Str) (result : Decoded (List ℕ))
      → carries token r.authorization ≡ true
      → r.method ≡ put_method
      → r.path ≡ sets_prefix ++ name
      → IsBody json r.content_type r.body result
      → (c : Change) × Says json token r c
  put-total name (invalid text) a e p body = (none, is_unreadable name text e p body)
  put-total [] (decoded ids) a e p body = (none, names_nothing e p)
  put-total (d ∷ name) (decoded ids) a e p body =
      (some (d ∷ name, some ids), puts (d ∷ name) ids a e p refl body)

  -- A request says a change.
  Says-total : (c : Change) × Says json token r c
  Says-total = elim (Bool-cases (carries token r.authorization)) [
    | inr a ↦ (none, lacks_token a)
    | inl a ↦ elim (Bool-cases (has_prefix r.path sets_prefix)) [
      | inr p ↦ (none, is_elsewhere p)
      | inl p ↦
          let (name, path) = cut_prefix r.path sets_prefix p in
          elim (Bool-cases (str_eq r.method put_method)) [
            | inl e ↦
                let (result, body) = IsBody-total json r.content_type r.body short in
                put-total name result a (str_eq→≡ r.method put_method e) path body
            | inr e ↦ elim (Bool-cases (str_eq r.method delete_method)) [
              | inl f ↦ (some (name, none), deletes name a (str_eq→≡ r.method delete_method f) path)
              | inr f ↦ (none, reads e f)
            ]
          ]
    ]
  ]

-- Every body is of 64 MiB at most.
abbrev pub AreShort : List (System × Request) → Type 0
AreShort [] = Unit
AreShort ((os, r) ∷ requests) = (length r.body ≤ max_body) × AreShort requests

-- Whatever the requests, where their bodies are of 64 MiB at most, each of them says a change.
AllSay-total :
    (json : Json) (token : Str) (requests : List (System × Request))
    → AreShort requests
    → (changes : List Change) × AllSay json token requests changes
AllSay-total json token [] short = ([], tt)
AllSay-total json token ((os, r) ∷ requests) (fits, short) =
    let (c, says) = Says-total json token r fits in
    let (changes, rest) = AllSay-total json token requests short in (c ∷ changes, (says, rest))
