-- ===== src/Command/Lines.antt =====
-- cmd/setrixdb/main.go: the text files that `readIDs` and `readTerms` read, by bufio.Scanner and
-- strings.TrimSpace. What a file holds is `none` where it cannot be opened.
use setrixdb.Base.{◌==◌, if◌then◌else◌, ℕ, Bool, ◌||◌, Option, none, some, List, [], ◌∷◌}
use setrixdb.Std.Scanner.{scan_lines, trim_space}
use setrixdb.Std.Strings.{Str, is_empty, has_prefix, fields_func}
use setrixdb.Std.Strconv.{parse_uint}

-- 64 MiB, which no line may reach.
abbrev pub max_line : ℕ
max_line = 67108864

-- The IDs of a file, or why they cannot be read.
pub data IdsRead : Type 0 where
  ids_read : List ℕ → IdsRead
  bad_id : Str → IdsRead
  line_too_long no_file : IdsRead

add_token : Str → Option ℕ → IdsRead → IdsRead
add_token tok none rest = bad_id tok
add_token tok (some v) (ids_read ids) = ids_read (v ∷ ids)
add_token tok (some v) (bad_id other) = bad_id other
add_token tok (some v) line_too_long = line_too_long
add_token tok (some v) no_file = no_file

-- The tokens of a line, before the lines that follow.
unfoldable pub add_tokens : List Str → IdsRead → IdsRead
unfolding add_token
add_tokens [] rest = rest
add_tokens (tok ∷ tokens) rest = add_token tok (parse_uint tok) (add_tokens tokens rest)

-- `,`, `;`, tab, space
abbrev pub is_delimiter : ℕ → Bool
is_delimiter c = c == b',' || (c == b';' || (c == b'\t' || c == b' '))

-- Whether a line is skipped: it is empty, or a comment.
abbrev pub is_skipped : Str → Bool
is_skipped line = is_empty line || has_prefix line (b'#' ∷ [])

unfoldable pub read_id_lines : List Str → Bool → IdsRead
unfolding add_tokens
read_id_lines [] too_long = if too_long then line_too_long else ids_read []
read_id_lines (l ∷ lines) too_long =
    let line = trim_space l in
    let rest = read_id_lines lines too_long in
    if is_skipped line then rest else add_tokens (fields_func is_delimiter line) rest

-- `readIDs` of what the file holds.
unfoldable pub read_id_file : Option Str → IdsRead
unfolding scan_lines read_id_lines trim_space
read_id_file none = no_file
read_id_file (some text) =
    let (lines, too_long) = scan_lines max_line [] text in read_id_lines lines too_long

unfoldable pub term_lines : List Str → List Str
term_lines [] = []
term_lines (l ∷ lines) =
    let line = trim_space l in
    let rest = term_lines lines in if is_skipped line then rest else line ∷ rest

-- `readTerms` of what the file holds; `none` for an error.
unfoldable pub read_terms : Option Str → Option (List Str)
unfolding scan_lines term_lines trim_space
read_terms none = none
read_terms (some text) =
    let (lines, too_long) = scan_lines max_line [] text in
    if too_long then none else some (term_lines lines)
