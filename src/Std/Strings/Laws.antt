-- ===== src/Std/Strings/Laws.antt =====
-- Prefixes and suffixes of a concatenation, and the fields of words that separators end.
use setrixdb.Base.{
  leb, le→leb, ==_refl, length, take, drop, length-append, take-append-drop, take_front, drop_front,
  str_eq, str_eq_refl, str_eq→≡, ℕ, ◌-◌, ◌≡◌, refl, sym, ap, ◌∙◌, Bool, true, false, [], ◌∷◌, ◌++◌,
  arith,
}
use mathlib.Core.List.{append_assoc, append-nil}
use setrixdb.Std.Strings.{
  Str, has_prefix, trim_prefix, has_suffix, trim_suffix, put_field, fields_from,
}

pub has_prefix-append : (prefix s : Str) → has_prefix (prefix ++ s) prefix ≡ true
unfolding has_prefix
has_prefix-append [] s = refl
has_prefix-append (p ∷ prefix) s = ground (arith, ==_refl p, has_prefix-append prefix s)

pub trim_prefix-append : (prefix s : Str) → trim_prefix (prefix ++ s) prefix ≡ s
unfolding trim_prefix
trim_prefix-append prefix s =
    rw (has_prefix-append prefix s) (drop_front (length prefix) prefix s refl)

front : (s t : Str) → length (s ++ t) - length t ≡ length s
front s t = omega (arith, length-append s t)

pub has_suffix-append : (s suffix : Str) → has_suffix (s ++ suffix) suffix ≡ true
unfolding has_suffix
has_suffix-append s suffix =
    let fits : leb (length suffix) (length (s ++ suffix)) ≡ true =
      le→leb (length suffix) (length (s ++ suffix)) (omega (arith, length-append s suffix)) in
    rw (fits, front s suffix, drop_front (length s) s suffix refl) (str_eq_refl suffix)

pub trim_suffix-append : (s suffix : Str) → trim_suffix (s ++ suffix) suffix ≡ s
unfolding trim_suffix
trim_suffix-append s suffix =
    rw (has_suffix-append s suffix, front s suffix) (take_front (length s) s suffix refl)

-- A suffix that is there follows what is left without it.
pub has_suffix-cut :
    (s suffix : Str) → has_suffix s suffix ≡ true → trim_suffix s suffix ++ suffix ≡ s
unfolding has_suffix trim_suffix
has_suffix-cut s suffix h =
    let same : str_eq (drop (length s - length suffix) s) suffix ≡ true = ground (arith, h) in
    rw h (
      ap (λ t. take (length s - length suffix) s ++ t)
        (sym (str_eq→≡ (drop (length s - length suffix) s) suffix same))
      ∙ take-append-drop (length s - length suffix) s)

-- Whether no byte is a separator.
abbrev pub HasNone : (ℕ → Bool) → Str → Type 0
HasNone is_sep [] = Unit
HasNone is_sep (c ∷ s) = (is_sep c ≡ false) × HasNone is_sep s

module _ (is_sep : ℕ → Bool) where
  fields_from_word :
      (w v : Str) (c : ℕ) (s : Str)
      → HasNone is_sep v
      → is_sep c ≡ true
      → fields_from is_sep w (v ++ c ∷ s) ≡ put_field (w ++ v) (fields_from is_sep [] s)
  unfolding fields_from
  fields_from_word w [] c s free e =
      rw e (ap (λ x. put_field x (fields_from is_sep [] s)) (sym (append-nil w)))
  fields_from_word w (d ∷ v) c s free e = rw (free.0) (
      fields_from_word (w ++ d ∷ []) v c s free.1 e
      ∙ ap (λ x. put_field x (fields_from is_sep [] s)) (append_assoc w (d ∷ []) v))

  -- A word up to a separator is a field.
  pub fields_from-append :
      (v : Str) (c : ℕ) (s : Str)
      → HasNone is_sep v
      → is_sep c ≡ true
      → fields_from is_sep [] (v ++ c ∷ s) ≡ put_field v (fields_from is_sep [] s)
  fields_from-append v c s free e = fields_from_word [] v c s free e

  pub fields_from_end :
      (w v : Str) → HasNone is_sep v → fields_from is_sep w v ≡ put_field (w ++ v) []
  unfolding fields_from
  fields_from_end w [] free = ap (λ x. put_field x []) (sym (append-nil w))
  fields_from_end w (d ∷ v) free = rw (free.0) (
      fields_from_end (w ++ d ∷ []) v free.1 ∙ ap (λ x. put_field x []) (append_assoc w (d ∷ []) v))

  -- A word at the end is a field.
  pub fields_from_word_end : (v : Str) → HasNone is_sep v → fields_from is_sep [] v ≡ put_field v []
  fields_from_word_end v free = fields_from_end [] v free
