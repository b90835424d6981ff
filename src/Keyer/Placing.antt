-- ===== src/Keyer/Placing.antt =====
-- The term of each ID.
use setrixdb.Base.{
  ltb, ◌==◌, ltb→lt, ==_refl, Bool-cases, Option-cases, none_ne_some, some_inj, length, get_or, set,
  length-set, get_or-set_self, get_or-set_ne, get_or_out, ℕ, zero, suc, ◌+◌, ◌<◌, ◌≡◌, sym, ap, ◌∙◌,
  subst, ◌≢◌, ◌⊎◌, inl, inr, Option, none, some, List, [], ◌∷◌, arith,
}
use setrixdb.Mphf.{Chd, lookup}
use setrixdb.Keyer.{ok, failed, key_without_id, place_terms, first_empty}
use setrixdb.Keyer.Chain.{ok_ne_failed, ok_inj}

-- The ID of the first key, and the run for the others.
place_terms_step :
    (c : Chd) (k : ℕ) (keys : List ℕ) (t : List ℕ) (terms por_id por_id' : List (List ℕ))
    → place_terms c (k ∷ keys) (t ∷ terms) por_id ≡ ok por_id'
    → (d : ℕ) × (lookup c k ≡ some d) × (place_terms c keys terms (set por_id d t) ≡ ok por_id')
unfolding place_terms
place_terms_step c k keys t terms por_id por_id' h =
    let Ends : Option ℕ → Type 0 = λ found.
      elim found [
        | none ↦ failed (key_without_id t)
        | some d ↦ place_terms c keys terms (set por_id d t)
      ]
      ≡ ok por_id' in
    elim (Option-cases (lookup c k)) [
      | inl e ↦ absurd (ok_ne_failed por_id' _ (subst Ends e h))
      | inr (d, e) ↦ (d, e, subst Ends e h)
    ]

module _ (c : Chd) where
  pub length-place_terms :
      (keys : List ℕ) (terms por_id por_id' : List (List ℕ))
      → place_terms c keys terms por_id ≡ ok por_id'
      → length por_id' ≡ length por_id
  unfolding place_terms
  length-place_terms [] terms por_id por_id' h = ap length (sym (ok_inj _ _ h))
  length-place_terms (k ∷ keys) [] por_id por_id' h = ap length (sym (ok_inj _ _ h))
  length-place_terms (k ∷ keys) (t ∷ terms) por_id por_id' h =
      let (d, e, run) = place_terms_step c k keys t terms por_id por_id' h in
      length-place_terms keys terms (set por_id d t) por_id' run ∙ length-set por_id d t

  -- A slot that no key has stays as it is.
  place_terms_kept :
      (keys : List ℕ) (terms por_id por_id' : List (List ℕ)) (id : ℕ)
      → place_terms c keys terms por_id ≡ ok por_id'
      → ((j : ℕ) → j < length keys → lookup c (get_or keys j 0) ≢ some id)
      → get_or por_id' id [] ≡ get_or por_id id []
  unfolding place_terms
  place_terms_kept [] terms por_id por_id' id h apart =
      ap (λ (p : List (List ℕ)). get_or p id []) (sym (ok_inj _ _ h))
  place_terms_kept (k ∷ keys) [] por_id por_id' id h apart =
      ap (λ (p : List (List ℕ)). get_or p id []) (sym (ok_inj _ _ h))
  place_terms_kept (k ∷ keys) (t ∷ terms) por_id por_id' id h apart =
      let (d, e, run) = place_terms_step c k keys t terms por_id por_id' h in
      place_terms_kept keys terms (set por_id d t) por_id' id run
        (λ j low. apart (suc j) (omega arith))
      ∙ get_or-set_ne por_id d id t [] (λ same. apart 0 (omega arith) (e ∙ ap some same))

  -- The slot of a key, when no later key has it, is the term of the key.
  pub place_terms_at :
      (keys : List ℕ) (terms por_id por_id' : List (List ℕ)) (i id : ℕ)
      → length keys ≡ length terms
      → place_terms c keys terms por_id ≡ ok por_id'
      → i < length keys
      → lookup c (get_or keys i 0) ≡ some id
      → id < length por_id
      → ((j : ℕ) → j < length keys → lookup c (get_or keys j 0) ≡ some id → j ≡ i)
      → get_or por_id' id [] ≡ get_or terms i []
  place_terms_at [] terms por_id por_id' i id size h low own fits once = absurd (omega arith)
  place_terms_at (k ∷ keys) [] por_id por_id' i id size h low own fits once = absurd (omega arith)
  place_terms_at (k ∷ keys) (t ∷ terms) por_id por_id' zero id size h low own fits once =
      let (d, e, run) = place_terms_step c k keys t terms por_id por_id' h in
      let same : d ≡ id = some_inj d id (sym e ∙ own) in
      place_terms_kept keys terms (set por_id d t) por_id' id run
        (λ j below again. let first = once (suc j) (omega arith) again in absurd (omega arith))
      ∙ rw same (get_or-set_self por_id id t [] fits)
  place_terms_at (k ∷ keys) (t ∷ terms) por_id por_id' (suc i) id size h low own fits once =
      let (d, e, run) = place_terms_step c k keys t terms por_id por_id' h in
      place_terms_at keys terms (set por_id d t) por_id' i id (omega arith) run (omega arith) own
        (omega (arith, length-set por_id d t))
        (λ j below again. let here = once (suc j) (omega arith) again in omega arith)

  -- What a slot holds was there before, or is the term of a key that has it.
  pub place_terms_from :
      (keys : List ℕ) (terms por_id por_id' : List (List ℕ)) (id : ℕ)
      → length keys ≡ length terms
      → place_terms c keys terms por_id ≡ ok por_id'
      → (get_or por_id' id [] ≡ get_or por_id id [])
        ⊎ ((i : ℕ) × (i < length keys)
            × (lookup c (get_or keys i 0) ≡ some id)
            × (get_or por_id' id [] ≡ get_or terms i []))
  unfolding place_terms
  place_terms_from [] terms por_id por_id' id size h =
      inl (ap (λ (p : List (List ℕ)). get_or p id []) (sym (ok_inj _ _ h)))
  place_terms_from (k ∷ keys) [] por_id por_id' id size h = absurd (omega arith)
  place_terms_from (k ∷ keys) (t ∷ terms) por_id por_id' id size h =
      let (d, e, run) = place_terms_step c k keys t terms por_id por_id' h in
      let old = λ (ne : d ≢ id). get_or-set_ne por_id d id t [] ne in
      elim (place_terms_from keys terms (set por_id d t) por_id' id (omega arith) run) [
        | inl kept ↦ elim (Bool-cases (d == id)) [
          | inl q ↦
              let same : d ≡ id = ground arith in
              elim (Bool-cases (ltb id (length por_id))) [
                | inl fits ↦
                    let own : get_or (set por_id d t) id [] ≡ t =
                      rw same (get_or-set_self por_id id t [] (ltb→lt id (length por_id) fits)) in
                    inr (0, omega arith, e ∙ ap some same, kept ∙ own)
                | inr past ↦
                    let none_there = get_or_out por_id id [] (ground arith) in
                    let none_after =
                      get_or_out (set por_id d t) id [] (ground (arith, length-set por_id d t)) in
                    inl (kept ∙ none_after ∙ sym none_there)
              ]
          | inr q ↦ inl (kept ∙ old (ground (arith, ==_refl id)))
        ]
        | inr (i, low, own, at) ↦ inr (suc i, omega arith, own, at)
      ]

pub first_empty-none :
    (i : ℕ) (por_id : List (List ℕ)) (k : ℕ)
    → first_empty i por_id ≡ none
    → k < length por_id
    → get_or por_id k [] ≢ []
unfolding first_empty
first_empty-none i [] k h low e = omega arith
first_empty-none i ([] ∷ por_id) k h low e = none_ne_some i (sym h)
first_empty-none i ((b ∷ t) ∷ por_id) zero h low e = cc
first_empty-none i ((b ∷ t) ∷ por_id) (suc k) h low e =
    first_empty-none (i + 1) por_id k h (omega arith) e
