-- ===== src/Std/FilePath.antt =====
-- `path/filepath` where the separator is '/': `Clean`, and `Join` of two elements.
pub mod Laws
use setrixdb.Base.{if◌then◌else◌, str_eq, ℕ, Bool, true, false, ◌==◌, List, [], ◌∷◌, ◌++◌}
use setrixdb.Std.Strings.{Str, fields_func}

abbrev pub is_slash : ℕ → Bool
is_slash c = c == b'/'

-- "."
abbrev pub here : Str
here = b'.' ∷ []

-- ".."
abbrev pub up : Str
up = b'.' ∷ b'.' ∷ []

-- The elements kept so far, the last first, after an element "..".
unfoldable pub go_up : Bool → List Str → List Str
go_up rooted [] = if rooted then [] else up ∷ []
go_up rooted (part ∷ parts) = if str_eq part up then up ∷ part ∷ parts else parts

-- After an element.
unfoldable pub take_part : Bool → List Str → Str → List Str
unfolding go_up
take_part rooted parts part =
    if str_eq part here then parts else if str_eq part up then go_up rooted parts else part ∷ parts

unfoldable pub take_parts : Bool → List Str → List Str → List Str
unfolding take_part
take_parts rooted parts [] = parts
take_parts rooted parts (part ∷ left) = take_parts rooted (take_part rooted parts part) left

-- The path of the elements, the last first.
unfoldable pub path_of : Bool → List Str → Str
path_of rooted [] = if rooted then b'/' ∷ [] else here
path_of rooted (part ∷ []) = if rooted then b'/' ∷ part else part
path_of rooted (part ∷ (below ∷ parts)) = path_of rooted (below ∷ parts) ++ (b'/' ∷ part)

abbrev pub is_rooted : Str → Bool
is_rooted [] = false
is_rooted (c ∷ path) = is_slash c

-- `filepath.Clean`
unfoldable pub clean : Str → Str
unfolding take_parts path_of
clean path = path_of (is_rooted path) (take_parts (is_rooted path) [] (fields_func is_slash path))

-- `filepath.Join(dir, name)`, for elements that are not empty.
unfoldable pub join : Str → Str → Str
unfolding clean
join dir name = clean (dir ++ b'/' ∷ name)
