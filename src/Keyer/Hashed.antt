-- ===== src/Keyer/Hashed.antt =====
-- The keyer past the small vocabularies, over a perfect hash.
use setrixdb.Base.{
  Option-cases, some_inj, length, get_or, replicate, get_or-replicate, length-replicate, has_str,
  AreUnique, ℕ, ◌+◌, ◌^◌, ◌<◌, ◌≡◌, sym, ap, ◌∙◌, subst, ◌≢◌, ◌↔◌, inl, inr, true, Option, none,
  some, List, [], arith,
}
use setrixdb.Mphf.{Chd}
use setrixdb.Mphf
use setrixdb.Mphf.Build.{Sizes, build}
use setrixdb.Mphf.Build.Perfect.{IsPerfect}
use setrixdb.Mphf.Build.Correct.{IsAccurate, build-IsPerfect}
use setrixdb.Keyer.{
  Keyer, Outcome, ok, failed, build_failed, id_without_term, Assigned, assign, place_terms,
  first_empty, finish_keyer, hash_keyer, unicos, lookup, probe_loop,
}
use setrixdb.Keyer.Terms.{has_str-at, has_str-get_or, AreUnique-at, unicos_lem}
use setrixdb.Keyer.Chain.{Outcome-cases, ok_ne_failed, ok_inj, AreAssigned, assign-AreAssigned}
use setrixdb.Keyer.Placing.{length-place_terms, place_terms_at, place_terms_from, first_empty-none}
use setrixdb.Keyer.Probes.{probe_loop_sound, probe_loop-found}
use setrixdb.Keyer.Exact.{IsExact, lookup-IsExact}

-- A keyer over a perfect hash of the keys of its terms.
module _ (c : Chd) (terms : List (List ℕ)) (a : Assigned) (por_id : List (List ℕ))
    (unique : AreUnique terms) (assigned : AreAssigned terms a) (perfect : IsPerfect c a.keys)
    (run : place_terms c a.keys terms (replicate (length terms) []) ≡ ok por_id)
    (full : first_empty 0 por_id ≡ none) where
  size : length por_id ≡ length terms
  size =
      length-place_terms c a.keys terms (replicate (length terms) []) por_id run
      ∙ length-replicate {A = List ℕ} (length terms) []

  once :
      (i j id : ℕ)
      → i < length a.keys
      → j < length a.keys
      → Mphf.lookup c (get_or a.keys i 0) ≡ some id
      → Mphf.lookup c (get_or a.keys j 0) ≡ some id
      → j ≡ i
  once i j id low low' own own' = perfect.apart j i low' low (own' ∙ sym own)

  -- The ID of a term.
  id_of :
      (i : ℕ)
      → i < length terms
      → (id : ℕ) × (Mphf.lookup c (get_or a.keys i 0) ≡ some id)
        × (id < length por_id)
        × (get_or por_id id [] ≡ get_or terms i [])
  id_of i low =
      let within : i < length a.keys = omega (arith, assigned.size) in
      let (id, own) = perfect.found i within in
      let bound = perfect.bounded (get_or a.keys i 0) id own in
      let zeros = length-replicate {A = List ℕ} (length terms) [] in
      (
        id,
        own,
        omega (arith, size, assigned.size),
        place_terms_at c a.keys terms (replicate (length terms) []) por_id i id assigned.size run
            within own (omega (arith, zeros, assigned.size))
            (λ j low' own'. once i j id within low' own own'),
      )

  -- The term of an ID.
  term_of :
      (id : ℕ)
      → id < length por_id
      → (i : ℕ) × (i < length terms)
        × (Mphf.lookup c (get_or a.keys i 0) ≡ some id)
        × (get_or por_id id [] ≡ get_or terms i [])
  term_of id low =
      elim (place_terms_from c a.keys terms (replicate (length terms) []) por_id id assigned.size
        run) [
          | inl kept ↦ absurd (
              first_empty-none 0 por_id id full low
                (kept ∙ get_or-replicate {A = List ℕ} (length terms) id []))
          | inr (i, within, own, at) ↦ (i, omega (arith, assigned.size), own, at)
        ]

  same_id :
      (d id : ℕ)
      → d < length por_id
      → id < length por_id
      → get_or por_id d [] ≡ get_or por_id id []
      → d ≡ id
  same_id d id low low' same =
      let (i, below, own, at) = term_of d low in
      let (j, below', own', at') = term_of id low' in
      let equal = AreUnique-at terms i j unique below below' (sym at ∙ same ∙ at') in
      some_inj d id (sym own ∙ ap (λ (q : ℕ). Mphf.lookup c (get_or a.keys q 0)) equal ∙ own')

  lookup_iff :
      (t : List ℕ) (id : ℕ)
      → (probe_loop c por_id t (a.max_probe + 1) 0 ≡ some id)
        ↔ ((id < length por_id) × (get_or por_id id [] ≡ t))
  lookup_iff t id = (
    probe_loop_sound c por_id t (a.max_probe + 1) 0 id,
    λ (low, at).
        let (i, below, own, held) = term_of id low in
        let (p, short, key) = assigned.chained i below in
        let same : get_or terms i [] ≡ t = sym held ∙ at in
        let (d, ends) =
          probe_loop-found c por_id t (a.max_probe + 1) 0 p id (omega arith) (omega arith)
            (ap (Mphf.lookup c) (rw (← same) (sym key)) ∙ own, low, at) in
        let (low', at') = probe_loop_sound c por_id t (a.max_probe + 1) 0 d ends in
        ends ∙ ap some (same_id d id low' low (at' ∙ sym at)),
  )

finish_keyer-ok :
    (c : Chd) (terms : List (List ℕ)) (a : Assigned) (k : Keyer)
    → finish_keyer c terms a ≡ ok k
    → (por_id : List (List ℕ)) × (place_terms c a.keys terms (replicate (length terms) [])
        ≡ ok por_id)
      × (first_empty 0 por_id ≡ none)
      × (k ≡ record {
        c = some c;
        small = none;
        terms = por_id;
        max_probe = a.max_probe;
        colisoes = a.colisoes;
      })
unfolding finish_keyer
finish_keyer-ok c terms a k h =
    let Checked : List (List ℕ) → Option ℕ → Outcome Keyer = λ por_id empty. elim empty [
      | some id ↦ failed (id_without_term id)
      | none ↦ ok (record {
        c = some c;
        small = none;
        terms = por_id;
        max_probe = a.max_probe;
        colisoes = a.colisoes;
      })
    ] in
    let Ends : Outcome (List (List ℕ)) → Type 0 = λ placed.
      elim placed [ failed e ↦ failed e | ok por_id ↦ Checked por_id (first_empty 0 por_id) ]
      ≡ ok k in
    elim (Outcome-cases (place_terms c a.keys terms (replicate (length terms) []))) [
      | inl (e, q) ↦ absurd (ok_ne_failed k e (subst Ends q h))
      | inr (por_id, q) ↦
          let checked = subst Ends q h in
          elim (Option-cases (first_empty 0 por_id)) [
            | inl full ↦ (
              por_id,
              q,
              full,
              sym (ok_inj _ k (subst (λ empty. Checked por_id empty ≡ ok k) full checked)),
            )
            | inr (id, hole) ↦
                absurd
                  (ok_ne_failed k _ (subst (λ empty. Checked por_id empty ≡ ok k) hole checked))
          ]
    ]

hash_keyer-ok :
    (sizes : Sizes) (terms : List (List ℕ)) (k : Keyer)
    → hash_keyer sizes terms ≡ ok k
    → (a : Assigned) × (c : Chd) × (assign terms [] 0 0 ≡ ok a)
      × (build sizes a.keys 0xADDB ≡ some c)
      × (finish_keyer c terms a ≡ ok k)
unfolding hash_keyer
hash_keyer-ok sizes terms k h =
    let Built : Assigned → Option Chd → Outcome Keyer =
      λ a built. elim built [ none ↦ failed build_failed | some c ↦ finish_keyer c terms a ] in
    let Ends : Outcome Assigned → Type 0 = λ assigned.
      elim assigned [ failed e ↦ failed e | ok a ↦ Built a (build sizes a.keys 0xADDB) ] ≡ ok k in
    elim (Outcome-cases (assign terms [] 0 0)) [
      | inl (e, q) ↦ absurd (ok_ne_failed k e (subst Ends q h))
      | inr (a, q) ↦
          let made = subst Ends q h in
          elim (Option-cases (build sizes a.keys 0xADDB)) [
            | inl none_built ↦
                absurd (ok_ne_failed k _ (subst (λ built. Built a built ≡ ok k) none_built made))
            | inr (c, built) ↦ (a, c, q, built, subst (λ built. Built a built ≡ ok k) built made)
          ]
    ]

-- Past the small vocabularies, over fewer than 2 ^ 30 different terms, a keyer that is built from them
-- is exact, and then none of the terms is the empty string.
pub hash_keyer-IsExact :
    (sizes : Sizes) (terms : List (List ℕ)) (k : Keyer)
    → IsAccurate sizes
    → length (unicos [] terms) < 2 ^ 30
    → hash_keyer sizes (unicos [] terms) ≡ ok k
    → IsExact k terms × ((t : List ℕ) → has_str t terms ≡ true → t ≢ [])
unfolding lookup
hash_keyer-IsExact sizes terms k accurate few h =
    let vocabulary = unicos [] terms in
    let unique = (unicos_lem terms).0 in
    let (a, c, keyed, built, finished) = hash_keyer-ok sizes vocabulary k h in
    let assigned = (assign-AreAssigned vocabulary [] 0 0 a keyed).0 in
    let perfect =
      build-IsPerfect sizes a.keys 0xADDB c accurate (omega (arith, assigned.size)) built in
    let (por_id, run, full, same) = finish_keyer-ok c vocabulary a k finished in
    let iff = lookup_iff c vocabulary a por_id unique assigned perfect run full in
    let made : Keyer = record {
      c = some c;
      small = none;
      terms = por_id;
      max_probe = a.max_probe;
      colisoes = a.colisoes;
    } in
    rw same (
      lookup-IsExact made terms (size c vocabulary a por_id unique assigned perfect run full) iff
          (λ t known.
            let (i, low, at) = has_str-at t vocabulary known in
            let (id, own, fits, held) =
              id_of c vocabulary a por_id unique assigned perfect run full i low in
            (id, (iff t id).1 (fits, held ∙ at)))
          (λ id low.
            let (i, below, own, held) =
              term_of c vocabulary a por_id unique assigned perfect run full id low in
            ap (λ (s : List ℕ). has_str s vocabulary) held ∙ has_str-get_or vocabulary i below),
      λ t known empty.
          let (i, low, at) = has_str-at t vocabulary ((unicos_lem terms).1 t ∙ known) in
          let (id, own, fits, held) =
            id_of c vocabulary a por_id unique assigned perfect run full i low in
          first_empty-none 0 por_id id full fits (held ∙ at ∙ empty),
    )
