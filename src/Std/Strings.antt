-- ===== src/Std/Strings.antt =====
-- The package strings: prefixes, suffixes, and fields. A string is the list of its bytes. The
-- separators are ASCII, so the bytes of a string of UTF-8 are cut where its runes are.
pub mod Laws
use setrixdb.Base.{
  ℕ, ◌-◌, Bool, true, false, ◌||◌, ◌&&◌, List, [], ◌∷◌, ◌++◌, length, take, drop, leb, ◌==◌,
  if◌then◌else◌, str_eq,
}

abbrev pub Str : Type 0
Str = List ℕ

abbrev pub is_empty : Str → Bool
is_empty [] = true
is_empty (c ∷ s) = false

unfoldable pub has_prefix : Str → Str → Bool
has_prefix s [] = true
has_prefix [] (p ∷ prefix) = false
has_prefix (c ∷ s) (p ∷ prefix) = c == p && has_prefix s prefix

unfoldable pub trim_prefix : Str → Str → Str
unfolding has_prefix
trim_prefix s prefix = if has_prefix s prefix then drop (length prefix) s else s

unfoldable pub has_suffix : Str → Str → Bool
has_suffix s suffix =
    leb (length suffix) (length s) && str_eq (drop (length s - length suffix) s) suffix

unfoldable pub trim_suffix : Str → Str → Str
unfolding has_suffix
trim_suffix s suffix = if has_suffix s suffix then take (length s - length suffix) s else s

unfoldable pub contains_str : Str → Str → Bool
unfolding has_prefix
contains_str [] part = has_prefix [] part
contains_str (c ∷ s) part = has_prefix (c ∷ s) part || contains_str s part

-- A field, unless it is empty.
abbrev pub put_field : Str → List Str → List Str
put_field [] fields = fields
put_field (c ∷ w) fields = (c ∷ w) ∷ fields

-- `FieldsFunc`, with the field read so far.
unfoldable pub fields_from : (ℕ → Bool) → Str → Str → List Str
fields_from is_sep w [] = put_field w []
fields_from is_sep w (c ∷ s) =
    let rest = fields_from is_sep (if is_sep c then [] else w ++ c ∷ []) s in
    if is_sep c then put_field w rest else rest

abbrev pub fields_func : (ℕ → Bool) → Str → List Str
fields_func is_sep s = fields_from is_sep [] s
