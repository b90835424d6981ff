-- ===== src/Command/Reading.antt =====
-- `readIDs` reads what is written as one ID on a line.
use setrixdb.Base.{
  ltb, leb, ◌==◌, if◌then◌else◌, Bool-cases, none_ne_some, length, length-append, Below, u64_mod, ℕ,
  zero, suc, ◌+◌, ◌/◌, ◌%◌, ◌≤◌, ◌≡◌, refl, sym, ap, ◌∙◌, subst, inl, inr, Bool, true, false, some,
  List, [], ◌∷◌, ◌++◌, arith,
}
use mathlib.Core.List.{append_assoc, append-nil}
use setrixdb.Std.Utf8.{decode_rune}
use setrixdb.Std.Strings.{Str, has_prefix, has_suffix, trim_suffix, fields_func}
use setrixdb.Std.Strings.Laws.{HasNone, has_suffix-cut, fields_from_word_end}
use setrixdb.Std.Strconv.{is_digit, parse_uint, format_uint, format_digits}
use setrixdb.Std.Strconv.Laws.{AllDigits, parse_uint-format_uint, format_uint-AllDigits}
use setrixdb.Std.Scanner.{finish_line, scan_lines, is_space, trim_left, trim_right, trim_space}
use setrixdb.Command.Lines.{
  max_line, ids_read, add_tokens, is_delimiter, is_skipped, read_id_lines, read_id_file,
}

-- The IDs in decimal, one on a line.
abbrev pub lines_of : List ℕ → Str
lines_of [] = []
lines_of (id ∷ ids) = format_uint id ++ b'\n' ∷ lines_of ids

digit-not_space : (c : ℕ) → is_digit c ≡ true → is_space c ≡ false
digit-not_space c h = ground arith

digit-rune : (c : ℕ) (s : Str) → is_digit c ≡ true → decode_rune (c ∷ s) ≡ (c, 1)
unfolding decode_rune
digit-rune c s h = let low : ltb c 0x80 ≡ true = ground arith in rw low refl

trim_right-AllDigits : (space : Bool) (w : Str) → AllDigits w → trim_right 0 space w ≡ w
unfolding trim_right
trim_right-AllDigits space [] a = refl
trim_right-AllDigits space (c ∷ w) a =
    rw (digit-rune c w a.0, digit-not_space c a.0) (ap (◌∷◌ c) (trim_right-AllDigits false w a.1))

trim_left-AllDigits : (w : Str) → AllDigits w → trim_left 0 w ≡ w
unfolding trim_left
trim_left-AllDigits [] a = refl
trim_left-AllDigits (c ∷ w) a = rw (digit-rune c w a.0, digit-not_space c a.0) refl

trim_space-AllDigits : (w : Str) → AllDigits w → trim_space w ≡ w
unfolding trim_space
trim_space-AllDigits w a = rw (trim_left-AllDigits w a) (trim_right-AllDigits false w a)

last-AllDigits : (w : Str) (c : ℕ) → AllDigits (w ++ c ∷ []) → is_digit c ≡ true
last-AllDigits [] c a = a.0
last-AllDigits (d ∷ w) c a = last-AllDigits w c a.1

-- No carriage return is cut off.
trim_suffix-AllDigits : (w : Str) → AllDigits w → trim_suffix w (b'\r' ∷ []) ≡ w
trim_suffix-AllDigits w a = elim (Bool-cases (has_suffix w (b'\r' ∷ []))) [
  | inl e ↦
      let cut = subst AllDigits (sym (has_suffix-cut w (b'\r' ∷ []) e)) a in
      let digit : is_digit b'\r' ≡ true = last-AllDigits (trim_suffix w (b'\r' ∷ [])) b'\r' cut in
      absurd (ground (arith, digit))
  | inr e ↦ unfold trim_suffix in rw e refl
]

scan_lines_word :
    (w v s : Str)
    → AllDigits v
    → scan_lines max_line w (v ++ b'\n' ∷ s)
      ≡ finish_line max_line (w ++ v) (scan_lines max_line [] s)
unfolding scan_lines
scan_lines_word w [] s a =
    ap (λ x. finish_line max_line x (scan_lines max_line [] s)) (sym (append-nil w))
scan_lines_word w (c ∷ v) s a =
    let other : (c == b'\n') ≡ false = ground (arith, a.0) in
    rw other (
      scan_lines_word (w ++ c ∷ []) v s a.1
      ∙ ap (λ x. finish_line max_line x (scan_lines max_line [] s)) (append_assoc w (c ∷ []) v))

length-format_digits : (left n : ℕ) → length (format_digits left n) ≤ left
unfolding format_digits
length-format_digits zero n = omega arith
length-format_digits (suc left) n =
    let last : List ℕ = (0x30 + n % 10) ∷ [] in
    elim (Bool-cases (ltb n 10)) [
      | inl e ↦ rw e (omega arith)
      | inr e ↦ rw e (
          omega (
            arith,
            length-append (format_digits left (n / 10)) last,
            length-format_digits left (n / 10),
          ))
    ]

length-format_uint : (n : ℕ) → length (format_uint n) ≤ 20
unfolding format_uint
length-format_uint n = length-format_digits 20 n

HasNone-AllDigits : (w : Str) → AllDigits w → HasNone is_delimiter w
HasNone-AllDigits [] a = tt
HasNone-AllDigits (c ∷ w) a = (not_delimiter c a.0, HasNone-AllDigits w a.1)
  where
    not_delimiter : (c : ℕ) → is_digit c ≡ true → is_delimiter c ≡ false
    not_delimiter c h = ground arith

-- A line of digits that are a number.
read_line :
    (w : Str) (v : ℕ) (ids : List ℕ)
    → AllDigits w
    → parse_uint w ≡ some v
    → (if is_skipped (trim_space w)
        then ids_read ids
        else add_tokens (fields_func is_delimiter (trim_space w)) (ids_read ids))
      ≡ ids_read (v ∷ ids)
read_line [] v ids a h = absurd (none_ne_some v (unfold parse_uint in h))
read_line (c ∷ w) v ids a h =
    let kept : is_skipped (c ∷ w) ≡ false = unfold has_prefix in ground (arith, a.0) in
    let field : fields_func is_delimiter (c ∷ w) ≡ (c ∷ w) ∷ [] =
      fields_from_word_end is_delimiter (c ∷ w) (HasNone-AllDigits (c ∷ w) a) in
    rw (trim_space-AllDigits (c ∷ w) a, kept, field) (unfold add_tokens in rw h refl)

scan_lines-lines_of :
    (id : ℕ) (ids : List ℕ)
    → scan_lines max_line [] (lines_of (id ∷ ids)) ≡ (
      format_uint id ∷ (scan_lines max_line [] (lines_of ids)).0,
      (scan_lines max_line [] (lines_of ids)).1,
    )
scan_lines-lines_of id ids =
    let digits = format_uint-AllDigits id in
    let fits : leb max_line (length (format_uint id)) ≡ false =
      ground (arith, length-format_uint id) in
    scan_lines_word [] (format_uint id) (lines_of ids) digits
    ∙ (unfold finish_line in rw (fits, trim_suffix-AllDigits (format_uint id) digits) refl)

read_lines :
    (ids : List ℕ)
    → Below u64_mod ids
    → read_id_lines
        (scan_lines max_line [] (lines_of ids)).0
        (scan_lines max_line [] (lines_of ids)).1
      ≡ ids_read ids
unfolding read_id_lines
read_lines [] h = unfold scan_lines in refl
read_lines (id ∷ ids) h =
    rw (scan_lines-lines_of id ids, read_lines ids h.1)
      (read_line (format_uint id) id ids (format_uint-AllDigits id) (parse_uint-format_uint id h.0))

-- `readIDs` gives back 64-bit IDs that are written in decimal, one on a line.
pub read_id_file-lines_of :
    (ids : List ℕ) → Below u64_mod ids → read_id_file (some (lines_of ids)) ≡ ids_read ids
unfolding read_id_file
read_id_file-lines_of ids h = read_lines ids h
