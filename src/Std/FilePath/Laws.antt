-- ===== src/Std/FilePath/Laws.antt =====
-- Paths that end in an element without a separator.
use setrixdb.Base.{
  if◌then◌else◌, Bool-cases, str_eq, ◌≡◌, refl, sym, ap, ◌∙◌, inl, inr, Bool, true, false, List, [],
  ◌∷◌, ◌++◌,
}
use mathlib.Core.List.{append_assoc}
use setrixdb.Std.Strings.{Str, is_empty, fields_func, fields_from, put_field, trim_prefix}
use setrixdb.Std.Strings.Laws.{HasNone, fields_from_end, trim_prefix-append}
use setrixdb.Std.FilePath.{
  is_slash, here, up, take_part, take_parts, path_of, is_rooted, clean, join,
}

put_field_one : (v : Str) → is_empty v ≡ false → put_field v [] ≡ v ∷ []
put_field_one [] e = cc
put_field_one (c ∷ v) e = refl

put_field-append : (w : Str) (xs ys : List Str) → put_field w (xs ++ ys) ≡ put_field w xs ++ ys
put_field-append [] xs ys = refl
put_field-append (c ∷ w) xs ys = refl

-- The element after the last separator is the last field.
fields_from_last :
    (w dir v : Str)
    → HasNone is_slash v
    → is_empty v ≡ false
    → fields_from is_slash w (dir ++ b'/' ∷ v) ≡ fields_from is_slash w dir ++ (v ∷ [])
unfolding fields_from
fields_from_last w [] v free e =
    ap (put_field w) (fields_from_end is_slash [] v free ∙ put_field_one v e)
    ∙ put_field-append w [] (v ∷ [])
fields_from_last w (c ∷ dir) v free e = elim (Bool-cases (is_slash c)) [
  | inl f ↦
      rw (f, fields_from_last [] dir v free e)
        (put_field-append w (fields_from is_slash [] dir) (v ∷ []))
  | inr f ↦ rw f (fields_from_last (w ++ c ∷ []) dir v free e)
]

take_parts-append :
    (rooted : Bool) (parts left : List Str) (v : Str)
    → take_parts rooted parts (left ++ (v ∷ [])) ≡ take_part rooted (take_parts rooted parts left) v
unfolding take_parts
take_parts-append rooted parts [] v = refl
take_parts-append rooted parts (x ∷ left) v =
    take_parts-append rooted (take_part rooted parts x) left v

-- What is before the last element.
abbrev pub parent : Bool → List Str → Str
parent rooted [] = if rooted then b'/' ∷ [] else []
parent rooted (part ∷ parts) = path_of rooted (part ∷ parts) ++ (b'/' ∷ [])

path_of-parent :
    (rooted : Bool) (v : Str) (parts : List Str)
    → path_of rooted (v ∷ parts) ≡ parent rooted parts ++ v
unfolding path_of
path_of-parent true v [] = refl
path_of-parent false v [] = refl
path_of-parent rooted v (x ∷ parts) = sym (append_assoc (path_of rooted (x ∷ parts)) (b'/' ∷ []) v)

abbrev pub parent_of : Str → Str
parent_of dir =
    let rooted = is_rooted (dir ++ (b'/' ∷ [])) in
    parent rooted (take_parts rooted [] (fields_func is_slash dir))

is_rooted_same : (dir v : Str) → is_rooted (dir ++ b'/' ∷ v) ≡ is_rooted (dir ++ (b'/' ∷ []))
is_rooted_same [] v = refl
is_rooted_same (c ∷ dir) v = refl

-- An element without a separator, other than "." and "..", is put after the directory.
pub join-parent_of :
    (dir v : Str)
    → HasNone is_slash v
    → is_empty v ≡ false
    → str_eq v here ≡ false
    → str_eq v up ≡ false
    → join dir v ≡ parent_of dir ++ v
unfolding join clean
join-parent_of dir v free e e₁ e₂ =
    let rooted = is_rooted (dir ++ (b'/' ∷ [])) in
    let parts = take_parts rooted [] (fields_func is_slash dir) in
    let last : take_part rooted parts v ≡ v ∷ parts = unfold take_part in rw (e₁, e₂) refl in
    rw
      (
        is_rooted_same dir v,
        fields_from_last [] dir v free e,
        take_parts-append rooted [] (fields_func is_slash dir) v,
        last,
      )
      (path_of-parent rooted v parts)

-- Two such elements are put at different paths.
pub join_inj : (dir v u : Str) → parent_of dir ++ v ≡ parent_of dir ++ u → v ≡ u
join_inj dir v u e =
    sym (trim_prefix-append (parent_of dir) v)
    ∙ ap (λ s. trim_prefix s (parent_of dir)) e
    ∙ trim_prefix-append (parent_of dir) u
