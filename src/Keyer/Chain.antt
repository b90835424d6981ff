-- ===== src/Keyer/Chain.antt =====
-- The chain of candidates: each term has a key from its own.
use setrixdb.Base.{
  ltb, if◌then◌else◌, Option-cases, length, get_or, ℕ, zero, suc, ◌+◌, ◌≤◌, ◌<◌, ◌≡◌, refl, sym, ap,
  subst, ◌≢◌, ◌⊎◌, inl, inr, Option, none, some, List, [], ◌∷◌, arith,
}
use setrixdb.Addb.Hash.{compute_deterministic_id}
use setrixdb.Keyer.{
  keyer_max_probe, KeyerError, Outcome, ok, failed, probes_exhausted, key_at, first_free, Assigned,
  with_key, assign,
}

pub ok_ne_failed {ℓ} : {A : Type ℓ} (a : A) (e : KeyerError) → failed e ≢ ok a
ok_ne_failed a e h = cc

pub ok_inj {ℓ} : {A : Type ℓ} (a b : A) → ok a ≡ ok b → a ≡ b
ok_inj a b h = cc

pub Outcome-cases {ℓ} :
    {A : Type ℓ} (o : Outcome A) → ((e : KeyerError) × (o ≡ failed e)) ⊎ ((a : A) × (o ≡ ok a))
Outcome-cases (failed e) = inl (e, refl)
Outcome-cases (ok a) = inr (a, refl)

-- Each term has a key from its chain, at a place within the longest one kept.
pub record AreAssigned (terms : List (List ℕ)) (a : Assigned) : Type 0 where
  pub size : length a.keys ≡ length terms
  pub chained :
      (i : ℕ)
      → i < length terms
      → (p : ℕ) × (p ≤ a.max_probe)
        × (get_or a.keys i 0 ≡ key_at (compute_deterministic_id (get_or terms i [])) p)

with_key-ok :
    (key : ℕ) (rest : Outcome Assigned) (a : Assigned)
    → with_key key rest ≡ ok a
    → (b : Assigned) × (rest ≡ ok b) × (a.keys ≡ key ∷ b.keys) × (a.max_probe ≡ b.max_probe)
unfolding with_key
with_key-ok key (failed e) a h = absurd (ok_ne_failed a e h)
with_key-ok key (ok b) a h =
    let same = ok_inj _ a h in
    (
      b,
      refl,
      sym (ap (λ (d : Assigned). d.keys) same),
      sym (ap (λ (d : Assigned). d.max_probe) same),
    )

pub assign-AreAssigned :
    (terms : List (List ℕ)) (taken : List ℕ) (max_probe colisoes : ℕ) (a : Assigned)
    → assign terms taken max_probe colisoes ≡ ok a
    → AreAssigned terms a × (max_probe ≤ a.max_probe)
unfolding assign
assign-AreAssigned [] taken max_probe colisoes a h =
    let same = ok_inj _ a h in
    (
      record {
        size = sym (ap (λ (d : Assigned). length d.keys) same);
        chained = λ i low. absurd (omega arith);
      },
      omega (arith, ap (λ (d : Assigned). d.max_probe) same),
    )
assign-AreAssigned (t ∷ terms) taken max_probe colisoes a h =
    let base = compute_deterministic_id t in
    let Ends : Option ℕ → Type 0 = λ found.
      elim found [
        | none ↦ failed (probes_exhausted t)
        | some probe ↦ with_key (key_at base probe) (
            assign terms (key_at base probe ∷ taken)
              (if ltb max_probe probe then probe else max_probe)
              (if ltb 0 probe then colisoes + 1 else colisoes))
      ]
      ≡ ok a in
    elim (Option-cases (first_free taken base (keyer_max_probe + 1) 0)) [
      | inl e ↦ absurd (ok_ne_failed a _ (subst Ends e h))
      | inr (probe, e) ↦
          let (b, run, keys, longest) = with_key-ok (key_at base probe) _ a (subst Ends e h) in
          let most = if ltb max_probe probe then probe else max_probe in
          let (rest, longer) =
            assign-AreAssigned terms (key_at base probe ∷ taken) most
              (if ltb 0 probe then colisoes + 1 else colisoes) b run in
          let within : (probe ≤ a.max_probe) × (max_probe ≤ a.max_probe) =
            ground (arith, longest, longer) in
          (
            record {
              size = rw keys (ap suc rest.size);
              chained = λ i low. chained_at t terms a b probe keys longest within.0 rest i low;
            },
            within.1,
          )
    ]
  where
    chained_at :
        (t : List ℕ) (terms : List (List ℕ)) (a b : Assigned) (probe : ℕ)
        → a.keys ≡ key_at (compute_deterministic_id t) probe ∷ b.keys
        → a.max_probe ≡ b.max_probe
        → probe ≤ a.max_probe
        → AreAssigned terms b
        → (i : ℕ) → i < length (t ∷ terms)
        → (p : ℕ) × (p ≤ a.max_probe)
          × (get_or a.keys i 0 ≡ key_at (compute_deterministic_id (get_or (t ∷ terms) i [])) p)
    chained_at t terms a b probe keys longest within rest zero low = (probe, within, rw keys refl)
    chained_at t terms a b probe keys longest within rest (suc i) low =
        let (p, short, at) = rest.chained i (omega arith) in (p, omega arith, rw keys at)
