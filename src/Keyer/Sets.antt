-- ===== src/Keyer/Sets.antt =====
-- `IDSet`: the set of the IDs of a list of terms.
use setrixdb.Base.{
  ◌==◌, ==_iff, Bool-cases, Option-cases, Bool-ext, none_ne_some, some_inj, elem, str_eq, has_str,
  str_eq_refl, str_eq→≡, ℕ, ◌≡◌, refl, sym, ap, ap₂, ◌∙◌, ◌↔◌, inl, inr, Bool, true, false, ◌&&◌,
  ◌||◌, not, Option, none, some, List, [], ◌∷◌, arith,
}
use setrixdb.Keyer.{Keyer, lookup, term, collect, ids_of, id_set}
use setrixdb.IdSet.Laws.{IsValid, member, member-new_set}
use setrixdb.Keyer.Exact.{IsExact}

abbrev is_id : ℕ → Option ℕ → Bool
is_id q none = false
is_id q (some id) = id == q

abbrev is_term : List ℕ → Option (List ℕ) → Bool
is_term t none = false
is_term t (some s) = str_eq t s

-- Whether the term of an ID, if it has one, is in a list.
abbrev pub is_listed : List (List ℕ) → Option (List ℕ) → Bool
is_listed terms none = false
is_listed terms (some t) = has_str t terms

is_id_iff : (q : ℕ) (found : Option ℕ) → (is_id q found ≡ true) ↔ (found ≡ some q)
is_id_iff q none = (λ h. absurd (cc), λ h. absurd (none_ne_some q h))
is_id_iff q (some id) = (λ h. ap some ((==_iff id q).0 h), λ h. (==_iff id q).1 (some_inj id q h))

is_term_iff : (t : List ℕ) (held : Option (List ℕ)) → (is_term t held ≡ true) ↔ (held ≡ some t)
is_term_iff t none = (λ h. absurd (cc), λ h. absurd (none_ne_some t h))
is_term_iff t (some s) =
    (λ h. ap some (sym (str_eq→≡ t s h)), λ h. rw (some_inj s t h) (str_eq_refl t))

is_listed-nil : (held : Option (List ℕ)) → false ≡ is_listed [] held
is_listed-nil none = refl
is_listed-nil (some s) = refl

is_listed-cons :
    (t : List ℕ) (terms : List (List ℕ)) (held : Option (List ℕ))
    → is_listed (t ∷ terms) held ≡ (is_term t held || is_listed terms held)
is_listed-cons t terms none = refl
is_listed-cons t terms (some s) = refl

elem-collect :
    (t : List ℕ) (found : Option ℕ) (rest : List ℕ × List (List ℕ)) (q : ℕ)
    → elem q (collect t found rest).0 ≡ (is_id q found || elem q rest.0)
unfolding collect
elem-collect t none rest q = refl
elem-collect t (some id) rest q = refl

abbrev is_none : Option ℕ → Bool
is_none none = true
is_none (some id) = false

has_str-collect :
    (t : List ℕ) (found : Option ℕ) (rest : List ℕ × List (List ℕ)) (s : List ℕ)
    → has_str s (collect t found rest).1 ≡ (str_eq t s && is_none found || has_str s rest.1)
unfolding collect
has_str-collect t none rest s = ground arith
has_str-collect t (some id) rest s = ground arith

-- Over an exact keyer.
module _ (k : Keyer) (vocabulary : List (List ℕ)) (exact : IsExact k vocabulary) where
  elem-ids_of :
      (terms : List (List ℕ)) (q : ℕ) → elem q (ids_of k terms).0 ≡ is_listed terms (term k q)
  unfolding ids_of
  elem-ids_of [] q = is_listed-nil (term k q)
  elem-ids_of (t ∷ terms) q =
      let same : is_id q (lookup k t) ≡ is_term t (term k q) =
        Bool-ext _ _
          (λ h.
            (is_term_iff t (term k q)).1 ((exact.inverse t q).0 ((is_id_iff q (lookup k t)).0 h)))
          (λ h.
            (is_id_iff q (lookup k t)).1
              ((exact.inverse t q).1 ((is_term_iff t (term k q)).0 h))) in
      elem-collect t (lookup k t) (ids_of k terms) q
      ∙ ap₂ ◌||◌ same (elem-ids_of terms q)
      ∙ sym (is_listed-cons t terms (term k q))

  is_none-lookup : (t : List ℕ) → is_none (lookup k t) ≡ not (has_str t vocabulary)
  is_none-lookup t = elim (Option-cases (lookup k t)) [
    | inl e ↦ elim (Bool-cases (has_str t vocabulary)) [
      | inl known ↦
          let (id, found) = exact.found t known in absurd (none_ne_some id (sym e ∙ found))
      | inr unknown ↦ rw (e, unknown) refl
    ]
    | inr (id, e) ↦ rw (e, exact.known t id e) refl
  ]

  has_str-ids_of :
      (terms : List (List ℕ)) (t : List ℕ)
      → has_str t (ids_of k terms).1 ≡ (has_str t terms && not (has_str t vocabulary))
  unfolding ids_of
  has_str-ids_of [] t = refl
  has_str-ids_of (s ∷ terms) t =
      has_str-collect s (lookup k s) (ids_of k terms) t ∙ elim (Bool-cases (str_eq s t)) [
        | inl e ↦
            rw (str_eq→≡ s t e, is_none-lookup t, has_str-ids_of terms t)
              (ground (arith, str_eq_refl t))
        | inr e ↦ ground (arith, has_str-ids_of terms t)
      ]

  -- Over an exact keyer the set of a list has the IDs whose terms are in the list, and what is missing
  -- are the terms of the list that are not in the vocabulary.
  pub member-id_set :
      (terms : List (List ℕ))
      → IsValid (id_set k terms).0
        × ((q : ℕ) → member (id_set k terms).0 q ≡ is_listed terms (term k q))
        × ((t : List ℕ)
            → has_str t (id_set k terms).1 ≡ (has_str t terms && not (has_str t vocabulary)))
  unfolding id_set
  member-id_set terms =
      let (valid, members) = member-new_set (ids_of k terms).0 in
      (valid, λ q. members q ∙ elem-ids_of terms q, has_str-ids_of terms)
