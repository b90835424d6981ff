-- ===== src/Keyer/Probes.antt =====
-- The probes of `Lookup`.
use setrixdb.Base.{
  ltb, ◌==◌, if◌then◌else◌, lt→ltb, Bool-cases, Option-cases, none_ne_some, some_inj, length,
  get_or, str_eq, str_eq_refl, str_eq→≡, ℕ, zero, suc, ◌+◌, ◌≤◌, ◌<◌, ◌≡◌, refl, sym, ◌∙◌, inl, inr,
  Bool, true, ◌&&◌, Option, none, some, List, [], arith,
}
use setrixdb.Addb.Hash.{compute_deterministic_id}
use setrixdb.Mphf.{Chd, lookup}
use setrixdb.Keyer.{key_at, probe_loop}

-- The probes: an ID they end with is the term's, and they end with one when any of them has it.
module _ (c : Chd) (terms : List (List ℕ)) (t : List ℕ) where
  abbrev pub Hits : ℕ → ℕ → Type 0
  Hits p id =
      (lookup c (key_at (compute_deterministic_id t) p) ≡ some id)
      × (id < length terms)
      × (get_or terms id [] ≡ t)

  abbrev is_hit : ℕ → Bool
  is_hit d = ltb d (length terms) && str_eq (get_or terms d []) t

  abbrev after : Option ℕ → Option ℕ → Option ℕ
  after rest found = elim found [ none ↦ rest | some d ↦ if is_hit d then some d else rest ]

  probe_loop-suc :
      (left probe : ℕ)
      → probe_loop c terms t (suc left) probe
        ≡ after
            (probe_loop c terms t left (probe + 1))
            (lookup c (key_at (compute_deterministic_id t) probe))
  unfolding probe_loop
  probe_loop-suc left probe = refl

  pub probe_loop_sound :
      (left probe id : ℕ)
      → probe_loop c terms t left probe ≡ some id
      → (id < length terms) × (get_or terms id [] ≡ t)
  unfolding probe_loop
  probe_loop_sound zero probe id h = absurd (none_ne_some id h)
  probe_loop_sound (suc left) probe id h =
      let rest = probe_loop c terms t left (probe + 1) in
      let step = sym (probe_loop-suc left probe) ∙ h in
      elim (Option-cases (lookup c (key_at (compute_deterministic_id t) probe))) [
        | inl e ↦ probe_loop_sound left (probe + 1) id (rw e at step)
        | inr (d, e) ↦
            let run : after rest (some d) ≡ some id = rw e at step in
            elim (Bool-cases (is_hit d)) [
              | inl hit ↦
                  let same : d ≡ id = some_inj d id (rw hit at run) in
                  let both : (d < length terms) × (str_eq (get_or terms d []) t ≡ true) =
                    ground arith in
                  rw (← same) (both.0, str_eq→≡ (get_or terms d []) t both.1)
              | inr miss ↦ probe_loop_sound left (probe + 1) id (rw miss at run)
            ]
      ]

  pub probe_loop-found :
      (left probe p id : ℕ)
      → probe ≤ p
      → p < probe + left
      → Hits p id
      → (d : ℕ) × (probe_loop c terms t left probe ≡ some d)
  probe_loop-found zero probe p id low high hit = absurd (omega arith)
  probe_loop-found (suc left) probe p id low high hit =
      rw (probe_loop-suc left probe) (elim (Bool-cases (probe == p)) [
        | inl s ↦
            let same : probe ≡ p = ground arith in
            let here : is_hit id ≡ true =
              rw (hit.2, str_eq_refl t, lt→ltb id (length terms) hit.1) refl in
            (id, rw (same, hit.0, here) refl)
        | inr s ↦
            let (d, rest) =
              probe_loop-found left (probe + 1) p id (ground arith) (omega arith) hit in
            elim (Option-cases (lookup c (key_at (compute_deterministic_id t) probe))) [
              | inl e ↦ (d, rw e rest)
              | inr (q, e) ↦ elim (Bool-cases (is_hit q)) [
                | inl own ↦ (q, rw (e, own) refl)
                | inr other ↦ (d, rw (e, other) rest)
              ]
            ]
      ])
