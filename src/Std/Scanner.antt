-- ===== src/Std/Scanner.antt =====
-- bufio.Scanner over the lines of a text, with the size of its buffer, which no line may reach; and
-- strings.TrimSpace, which cuts off the spaces of unicode.IsSpace.
use setrixdb.Base.{
  leb, ◌==◌, if◌then◌else◌, length, ℕ, zero, suc, ◌-◌, max, Bool, true, false, ◌&&◌, ◌||◌, List, [],
  ◌∷◌, ◌++◌,
}
use setrixdb.Std.Utf8.{decode_rune}
use setrixdb.Std.Strings.{Str, is_empty, trim_suffix}

unfoldable pub finish_line : ℕ → Str → List Str × Bool → List Str × Bool
finish_line max line (lines, too_long) =
    if leb max (length line) then ([], true) else (trim_suffix line (b'\r' ∷ []) ∷ lines, too_long)

-- The lines that the scanner gives, with the line read so far, and whether it stops at a line that is too
-- long.
unfoldable pub scan_lines : ℕ → Str → Str → List Str × Bool
unfolding finish_line
scan_lines max line [] = if is_empty line then ([], false) else finish_line max line ([], false)
scan_lines max line (c ∷ s) =
    let rest = scan_lines max (if c == b'\n' then [] else line ++ c ∷ []) s in
    if c == b'\n' then finish_line max line rest else rest

-- unicode.IsSpace
abbrev pub is_space : ℕ → Bool
is_space r =
    r == 0x20
    || (leb 0x09 r && leb r 0x0D)
    || r == 0x85
    || r == 0xA0
    || r == 0x1680
    || (leb 0x2000 r && leb r 0x200A)
    || r == 0x2028
    || r == 0x2029
    || r == 0x202F
    || r == 0x205F
    || r == 0x3000

-- Past the rest of a space, with so many bytes left of it.
unfoldable pub trim_left : ℕ → Str → Str
unfolding decode_rune
trim_left skip [] = []
trim_left (suc skip) (b ∷ s) = trim_left skip s
trim_left zero (b ∷ s) =
    let rune = decode_rune (b ∷ s) in
    let rest = trim_left (rune.1 - 1) s in if is_space rune.0 then rest else b ∷ s

-- Within a rune, with so many bytes left of it, that is a space or not.
unfoldable pub trim_right : ℕ → Bool → Str → Str
unfolding decode_rune
trim_right skip space [] = []
trim_right (suc skip) space (b ∷ s) =
    let rest = trim_right skip space s in if space && is_empty rest then [] else b ∷ rest
trim_right zero space (b ∷ s) =
    let rune = decode_rune (b ∷ s) in
    let rest = trim_right (rune.1 - 1) (is_space rune.0) s in
    if is_space rune.0 && is_empty rest then [] else b ∷ rest

unfoldable pub trim_space : Str → Str
unfolding trim_left trim_right
trim_space s = trim_right 0 false (trim_left 0 s)
