-- ===== src/Keyer/Built.antt =====
-- `BuildKeyer`: what a keyer is once it is built, and when it is.
use setrixdb.Base.{
  leb, ◌==◌, if◌then◌else◌, leb→le, le→leb, ==_iff, Bool-cases, none_ne_some, length, has_str, ℕ,
  ◌^◌, ◌≤◌, ◌<◌, ◌≡◌, refl, sym, ◌≢◌, ◌⊎◌, inl, inr, true, false, none, List, [], arith,
}
use setrixdb.Mphf.Build.{Sizes}
use setrixdb.Mphf.Build.Correct.{IsAccurate}
use setrixdb.Keyer.{
  Keyer, ok, small_keyer, hash_keyer, build_keyer, unicos, keyer_small_max, lookup,
}
use setrixdb.Keyer.Terms.{has_str-at}
use setrixdb.Keyer.Chain.{ok_inj}
use setrixdb.Keyer.Exact.{IsExact, lookup-IsExact, small_keyer-IsExact}
use setrixdb.Keyer.Hashed.{hash_keyer-IsExact}

not_leb : (a b : ℕ) → leb a b ≡ false → b < a
not_leb a b h = ground arith

abbrev no_terms : Keyer
no_terms = record { c = none; small = none; terms = []; max_probe = 0; colisoes = 0 }

no_terms-IsExact : (terms : List (List ℕ)) → length (unicos [] terms) ≡ 0 → IsExact no_terms terms
unfolding lookup
no_terms-IsExact terms empty =
    lookup-IsExact no_terms terms (sym empty)
      (λ t id. (λ q. absurd (none_ne_some id q), λ (low, at). absurd (omega arith)))
      (λ t q. let (i, low, at) = has_str-at t (unicos [] terms) q in absurd (omega arith))
      (λ id low. absurd (omega arith))

build_keyer-ways :
    (sizes : Sizes) (terms : List (List ℕ)) (k : Keyer)
    → build_keyer sizes terms ≡ ok k
    → ((length (unicos [] terms) ≡ 0) × (k ≡ no_terms))
      ⊎ (((length (unicos [] terms) ≤ keyer_small_max) × (k ≡ small_keyer (unicos [] terms)))
          ⊎ ((keyer_small_max < length (unicos [] terms))
              × (hash_keyer sizes (unicos [] terms) ≡ ok k)))
unfolding build_keyer
build_keyer-ways sizes terms k h = elim (Bool-cases (length (unicos [] terms) == 0)) [
  | inl e ↦ inl ((==_iff (length (unicos [] terms)) 0).0 e, sym (ok_inj _ k (rw e at h)))
  | inr e ↦
      let past : (if leb (length (unicos [] terms)) keyer_small_max
            then ok (small_keyer (unicos [] terms))
            else hash_keyer sizes (unicos [] terms))
          ≡ ok k =
        rw e at h in
      elim (Bool-cases (leb (length (unicos [] terms)) keyer_small_max)) [
        | inl q ↦ inr (
            inl (
              leb→le (length (unicos [] terms)) keyer_small_max q,
              sym (ok_inj _ k (rw q at past)),
            ))
        | inr q ↦ inr (inr (not_leb (length (unicos [] terms)) keyer_small_max q, rw q at past))
      ]
]

-- A keyer that is built over fewer than 2 ^ 30 terms, small or hashed, has as many IDs as different
-- terms, `Term` undoes `Lookup` and `Lookup` undoes `Term`, and exactly the given terms have an ID.
pub build_keyer-IsExact :
    (sizes : Sizes) (terms : List (List ℕ)) (k : Keyer)
    → IsAccurate sizes
    → length (unicos [] terms) < 2 ^ 30
    → build_keyer sizes terms ≡ ok k
    → IsExact k terms
build_keyer-IsExact sizes terms k accurate few h = elim (build_keyer-ways sizes terms k h) [
  | inl (empty, same) ↦ rw same (no_terms-IsExact terms empty)
  | inr (inl (_, same)) ↦ rw same (small_keyer-IsExact terms)
  | inr (inr (_, made)) ↦ (hash_keyer-IsExact sizes terms k accurate few made).0
]

-- With more than 4096 different terms no keyer is built when the empty string is one of them.
pub build_keyer_empty_term :
    (sizes : Sizes) (terms : List (List ℕ)) (k : Keyer)
    → IsAccurate sizes
    → length (unicos [] terms) < 2 ^ 30
    → keyer_small_max < length (unicos [] terms)
    → has_str [] terms ≡ true
    → build_keyer sizes terms ≢ ok k
build_keyer_empty_term sizes terms k accurate few large empty h =
    elim (build_keyer-ways sizes terms k h) [
      | inl (none_left, _) ↦ omega arith
      | inr (inl (small, _)) ↦ omega arith
      | inr (inr (_, made)) ↦ (hash_keyer-IsExact sizes terms k accurate few made).1 [] empty refl
    ]

-- With at most 4096 different terms a keyer is always built, whatever the terms, and it is exact.
pub build_keyer_small :
    (sizes : Sizes) (terms : List (List ℕ))
    → length (unicos [] terms) ≤ keyer_small_max
    → (k : Keyer) × (build_keyer sizes terms ≡ ok k) × IsExact k terms
unfolding build_keyer
build_keyer_small sizes terms few = elim (Bool-cases (length (unicos [] terms) == 0)) [
  | inl e ↦
      (no_terms, rw e refl, no_terms-IsExact terms ((==_iff (length (unicos [] terms)) 0).0 e))
  | inr e ↦
      let made : build_keyer sizes terms ≡ ok (small_keyer (unicos [] terms)) =
        rw (e, le→leb (length (unicos [] terms)) keyer_small_max few) refl in
      (small_keyer (unicos [] terms), made, small_keyer-IsExact terms)
]
