-- ===== src/Keyer/Exact.antt =====
-- The keyer maps each term of the vocabulary to an ID of its own, and no other term.
use setrixdb.Base.{
  leb, Bool-cases, none_ne_some, some_inj, length, get_or, unique, has_str, ℕ, ◌<◌, ◌≡◌, refl, sym,
  ap, ◌∙◌, ◌↔◌, inl, inr, true, some, List, [], arith,
}
use setrixdb.Keyer.{Keyer, small_keyer, unicos, lookup, term, len}
use setrixdb.Keyer.Terms.{has_str-at, has_str-get_or, unicos_lem, find_str-put_small}

-- `Lookup` and `Term` are inverse, and exactly the terms of the vocabulary have an ID.
pub record IsExact (k : Keyer) (terms : List (List ℕ)) : Type 0 where
  pub inverse : (t : List ℕ) (id : ℕ) → (lookup k t ≡ some id) ↔ (term k id ≡ some t)
  pub found : (t : List ℕ) → has_str t terms ≡ true → (id : ℕ) × (lookup k t ≡ some id)
  pub known : (t : List ℕ) (id : ℕ) → lookup k t ≡ some id → has_str t terms ≡ true
  pub size : len k ≡ length (unicos [] terms)

term-get_or :
    (k : Keyer) (t : List ℕ) (id : ℕ)
    → (term k id ≡ some t) ↔ ((id < length k.terms) × (get_or k.terms id [] ≡ t))
unfolding term
term-get_or k t id = elim (Bool-cases (leb (length k.terms) id)) [
  | inl e ↦ rw e (λ h. absurd (none_ne_some t h), λ (low, at). ground arith)
  | inr e ↦ rw e (λ h. (ground arith, some_inj _ t h), λ (low, at). ap some at)
]

-- From a vocabulary without repetitions.
pub lookup-IsExact :
    (k : Keyer) (terms : List (List ℕ))
    → length k.terms ≡ length (unicos [] terms)
    → ((t : List ℕ) (id : ℕ)
        → (lookup k t ≡ some id) ↔ ((id < length k.terms) × (get_or k.terms id [] ≡ t)))
    → ((t : List ℕ) → has_str t (unicos [] terms) ≡ true → (id : ℕ) × (lookup k t ≡ some id))
    → ((id : ℕ) → id < length k.terms → has_str (get_or k.terms id []) (unicos [] terms) ≡ true)
    → IsExact k terms
unfolding len
lookup-IsExact k terms size inverse found known =
    let (unique, same) = unicos_lem terms in
    record {
      inverse = λ t id. (
        λ h. (term-get_or k t id).1 ((inverse t id).0 h),
        λ h. (inverse t id).1 ((term-get_or k t id).0 h),
      );
      found = λ t h. found t (same t ∙ h);
      known = λ t id h.
          let (low, at) = (inverse t id).0 h in
          sym (same t) ∙ ap (λ (s : List ℕ). has_str s (unicos [] terms)) (sym at) ∙ known id low;
      size = size;
    }

pub small_keyer-IsExact : (terms : List (List ℕ)) → IsExact (small_keyer (unicos [] terms)) terms
unfolding small_keyer lookup
small_keyer-IsExact terms =
    let unique = (unicos_lem terms).0 in
    let vocabulary = unicos [] terms in
    lookup-IsExact (small_keyer vocabulary) terms refl
      (λ t id. find_str-put_small vocabulary t id unique)
      (λ t h.
        let (i, low, at) = has_str-at t vocabulary h in
        (i, (find_str-put_small vocabulary t i unique).1 (low, at)))
      (λ id low. has_str-get_or vocabulary id low)
