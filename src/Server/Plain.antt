-- ===== src/Server/Plain.antt =====
-- Names without '/' have files of their own.
use setrixdb.Base.{
  Bool-ext, str_eq, str_eq_refl, str_eq→≡, str_eq_ne, length, length-append, ◌+◌, ◌≡◌, refl, sym,
  ap, ◌∙◌, subst, true, false, none, some, List, [], ◌∷◌, ◌++◌, arith,
}
use setrixdb.Std.Strings.{Str, is_empty, trim_suffix}
use setrixdb.Std.Strings.Laws.{HasNone, trim_suffix-append}
use setrixdb.Std.FilePath.{is_slash, here, up}
use setrixdb.Std.FilePath.Laws.{parent_of, join-parent_of, join_inj}
use setrixdb.Server.Disk.{extension, file_of}
use setrixdb.Server.Catalog.{Change}
use setrixdb.Server.Files.{IsApart}
use setrixdb.Server.Asking.{ArePlain}

HasNone-extension : (n : Str) → HasNone is_slash n → HasNone is_slash (n ++ extension)
HasNone-extension [] a = (refl, (refl, (refl, (refl, (refl, (refl, tt))))))
HasNone-extension (c ∷ n) a = (a.0, HasNone-extension n a.1)

is_empty-extension : (n : Str) → is_empty (n ++ extension) ≡ false
is_empty-extension [] = refl
is_empty-extension (c ∷ n) = refl

file_of-parent_of :
    (dir n : Str) → HasNone is_slash n → file_of dir n ≡ parent_of dir ++ (n ++ extension)
file_of-parent_of dir n a =
    let size : length (n ++ extension) ≡ length n + 6 = length-append n extension in
    join-parent_of dir (n ++ extension) (HasNone-extension n a) (is_empty-extension n)
      (str_eq_ne (n ++ extension) here (λ same. omega (arith, size, ap length same)))
      (str_eq_ne (n ++ extension) up (λ same. omega (arith, size, ap length same)))

str_eq-file_of :
    (dir n q : Str)
    → HasNone is_slash n
    → HasNone is_slash q
    → str_eq (file_of dir n) (file_of dir q) ≡ str_eq n q
str_eq-file_of dir n q a b =
    Bool-ext (str_eq (file_of dir n) (file_of dir q)) (str_eq n q)
      (λ e.
        let whole : parent_of dir ++ (n ++ extension) ≡ parent_of dir ++ (q ++ extension) =
          sym (file_of-parent_of dir n a)
          ∙ str_eq→≡ (file_of dir n) (file_of dir q) e
          ∙ file_of-parent_of dir q b in
        let back : n ≡ q =
          sym (trim_suffix-append n extension)
          ∙ ap (λ s. trim_suffix s extension) (join_inj dir (n ++ extension) (q ++ extension) whole)
          ∙ trim_suffix-append q extension in
        subst (λ k. str_eq n k ≡ true) back (str_eq_refl n))
      (λ e.
        subst (λ k. str_eq (file_of dir n) (file_of dir k) ≡ true) (str_eq→≡ n q e)
          (str_eq_refl (file_of dir n)))

-- A change of a plain name leaves the files of the others.
pub ArePlain-IsApart :
    (dir q : Str) (c : Change) (changes : List Change)
    → HasNone is_slash q
    → ArePlain (c ∷ changes)
    → IsApart dir q c × ArePlain changes
ArePlain-IsApart dir q none changes a plain = (tt, plain)
ArePlain-IsApart dir q (some (n, v)) changes a (b, plain) = (str_eq-file_of dir n q b a, plain)
