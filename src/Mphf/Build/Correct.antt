-- ===== src/Mphf/Build/Correct.antt =====
-- `BuildOpts`: what a hash is once it is built, and when none is.
use setrixdb.Base.{
  leb, ◌==◌, if◌then◌else◌, ==_iff, ==_refl, Bool-cases, Option-cases, none_ne_some, some_inj,
  length, get_or, length-map, elem, Below, elem-perm, u32_mod, u64, u32, IsUnique-perm, ℕ, zero,
  suc, ◌+◌, ◌*◌, ◌^◌, ◌≤◌, ◌<◌, ◌≡◌, sym, ap, ◌∙◌, subst, inl, inr, true, Option, none, some, List,
  [], ◌∷◌, map, arith,
}
use mathlib.Core.List.{Perm}
use mathlib.Core.List.Perm
use setrixdb.Mphf.{Chd, hash_mod, lookup, mix}
use setrixdb.Mphf.Build.{
  build, Sizes, Grouped, group_keys, nonempty_from, attempt_with, attempts, finish, build_opts,
}
use setrixdb.Mphf.Build.Buckets.Filling.{group_keys-IsGrouped}
use setrixdb.Mphf.Build.Buckets.Order.{
  nonempty_from-IsUnique, lt_of_elem-nonempty_from, elem-nonempty_from,
}
use setrixdb.Mphf.Build.Perfect.{IsPerfect, finish-IsPerfect, hashes-Below}

-- The attempt that succeeds.
attempts-attempt_with :
    (m nb : ℕ) (grouped : Grouped) (order keys : List ℕ) (seed left attempt : ℕ) (c : Chd)
    → attempts m nb grouped order keys seed left attempt ≡ some c
    → (seed2 : ℕ) × (words : List ℕ) × (displacements : List ℕ) × (attempt_with m nb grouped order
          keys seed2
        ≡ some (words, displacements))
      × (c ≡ finish (length keys) m nb seed seed2 words displacements)
unfolding attempts
attempts-attempt_with m nb grouped order keys seed zero attempt c h = absurd (none_ne_some c h)
attempts-attempt_with m nb grouped order keys seed (suc left) attempt c h =
    let seed2 = mix (u64 (u64 (seed + 1) + u64 (attempt * 0x9E3779B97F4A7C15))) in
    let Ends : Option (List ℕ × List ℕ) → Type 0 = λ result.
      elim result [
        | none ↦ attempts m nb grouped order keys seed left (attempt + 1)
        | some (words, displacements) ↦
            some (finish (length keys) m nb seed seed2 words displacements)
      ]
      ≡ some c in
    elim (Option-cases (attempt_with m nb grouped order keys seed2)) [
      | inl e ↦
          attempts-attempt_with m nb grouped order keys seed left (attempt + 1) c (subst Ends e h)
      | inr ((words, displacements), e) ↦
          (seed2, words, displacements, e, sym (some_inj _ c (subst Ends e h)))
    ]

Below_of_elem : (n : ℕ) (xs : List ℕ) → ((q : ℕ) → elem q xs ≡ true → q < n) → Below n xs
Below_of_elem n [] h = tt
Below_of_elem n (x ∷ xs) h =
    (h x (ground (arith, ==_refl x)), Below_of_elem n xs (λ q e. h q (ground arith)))

module _ (arrange : List ℕ → List ℕ) (rearranges : (xs : List ℕ) → Perm (arrange xs) xs)
    (keys : List ℕ) (few : length keys < u32_mod) (m nb seed : ℕ) (some_buckets : 0 < nb)
    (some_slots : 0 < m) (narrow : m + 64 < u32_mod) where
  abbrev grouped : Grouped
  grouped = group_keys nb (map (hash_mod seed nb) keys)

  abbrev listed : List ℕ
  listed = nonempty_from 0 grouped.starts grouped.ends

  attempts-IsPerfect :
      (left attempt : ℕ) (c : Chd)
      → attempts m nb grouped (arrange listed) keys seed left attempt ≡ some c
      → IsPerfect c keys
  attempts-IsPerfect left attempt c h =
      let hs : List ℕ = map (hash_mod seed nb) keys in
      let (seed2, words, displacements, run, same) =
        attempts-attempt_with m nb grouped (arrange listed) keys seed left attempt c h in
      let members = λ (q : ℕ). elem-perm q (rearranges listed) in
      let filled =
        group_keys-IsGrouped hs nb (hashes-Below seed nb keys some_buckets)
          (rw (length-map (hash_mod seed nb) keys) few) in
      rw same (
        finish-IsPerfect keys m nb seed seed2 (arrange listed) words displacements few some_buckets
          some_slots narrow
          (IsUnique-perm (Perm.symm (rearranges listed))
            (nonempty_from-IsUnique 0 grouped.starts grouped.ends))
          (Below_of_elem nb (arrange listed) (λ q e. omega (
            arith,
            lt_of_elem-nonempty_from 0 q grouped.starts grouped.ends (sym (members q) ∙ e),
            filled.starts_size,
          )))
          (λ j below some_keys.
            members j
            ∙ ap (λ (t : ℕ). elem t listed) {x = j} {y = 0 + j} (omega arith)
            ∙ elem-nonempty_from 0 j grouped.starts grouped.ends (omega (arith, filled.starts_size))
                (omega (arith, filled.ends_size))
                (omega (arith, filled.begins j below, filled.ends_at j below)))
          run)

no_keys-IsPerfect :
    (c : Chd) (keys : List ℕ) → length keys ≡ 0 → c.m ≡ 0 → c.n ≡ 0 → IsPerfect c keys
unfolding lookup
no_keys-IsPerfect c keys none_left no_slots no_count = record {
  counted = omega arith;
  found = λ i h. absurd (omega arith);
  bounded = λ k id e. ground arith;
  apart = λ i j h h' e. absurd (omega arith);
}

-- A hash that is built from fewer than 2 ^ 31 keys, with buckets below 2 ^ 31 - 66 and slots below
-- 2 ^ 32 - 66, has an ID for every key, has no ID past the number of keys, has different IDs for keys at
-- different places, and keeps the number of keys.
pub build_opts-IsPerfect :
    (arrange : List ℕ → List ℕ)
    → ((xs : List ℕ) → Perm (arrange xs) xs)
    → (keys : List ℕ) (buckets table seed : ℕ) (c : Chd) → length keys < u32_mod
    → buckets + 66 < 2 ^ 31
    → table + 66 < u32_mod
    → build_opts arrange keys buckets table seed ≡ some c
    → IsPerfect c keys
unfolding build_opts
build_opts-IsPerfect arrange rearranges keys buckets table seed c few room room' h =
    elim (Bool-cases (length keys == 0)) [
      | inl e ↦
          let same = some_inj _ c (rw e at h) in
          no_keys-IsPerfect c keys ((==_iff (length keys) 0).0 e) (sym (ap (λ (d : Chd). d.m) same))
            (sym (ap (λ (d : Chd). d.n) same))
      | inr e ↦
          let nb = u32 (buckets + 1) in
          let m₁ = u32 (table + 1) in
          let m = if leb m₁ nb then u32 (nb + 1) else m₁ in
          let some_slots : (0 < m) × (m + 64 < u32_mod) = ground arith in
          attempts-IsPerfect arrange rearranges keys (omega arith) m nb seed (omega arith)
            some_slots.0 some_slots.1 1024 0 c (rw e at h)
    ]

-- From keys of which two at different places are equal no hash is built, whatever the seed: from fewer
-- than 2 ^ 31 keys, with buckets below 2 ^ 31 - 66 and slots below 2 ^ 32 - 66.
pub build_opts_repeated :
    (arrange : List ℕ → List ℕ)
    → ((xs : List ℕ) → Perm (arrange xs) xs)
    → (keys : List ℕ) (buckets table seed i j : ℕ) → length keys < u32_mod
    → buckets + 66 < 2 ^ 31
    → table + 66 < u32_mod
    → i < j
    → j < length keys
    → get_or keys i 0 ≡ get_or keys j 0
    → build_opts arrange keys buckets table seed ≡ none
build_opts_repeated arrange rearranges keys buckets table seed i j few room room' less inside same =
    elim (Option-cases (build_opts arrange keys buckets table seed)) [
      | inl e ↦ e
      | inr (c, e) ↦
          let perfect =
            build_opts-IsPerfect arrange rearranges keys buckets table seed c few room room' e in
          let equal = perfect.apart i j (omega arith) inside (ap (lookup c) same) in
          absurd (omega arith)
    ]

-- What `sort.Slice` and the floating point do at the load factor 3 and the slack 0.23.
pub record IsAccurate (sizes : Sizes) : Type 0 where
  pub rearranges : (xs : List ℕ) → Perm (sizes.arrange xs) xs
  pub buckets_le : (n : ℕ) → n < 2 ^ 30 → sizes.buckets n ≤ n
  pub table_le : (n : ℕ) → n < 2 ^ 30 → sizes.table n ≤ 2 * n

pub build-IsPerfect :
    (sizes : Sizes) (keys : List ℕ) (seed : ℕ) (c : Chd)
    → IsAccurate sizes
    → length keys < 2 ^ 30
    → build sizes keys seed ≡ some c
    → IsPerfect c keys
unfolding build
build-IsPerfect sizes keys seed c accurate few h =
    build_opts-IsPerfect sizes.arrange accurate.rearranges keys (sizes.buckets (length keys))
      (sizes.table (length keys)) seed c (omega arith)
      (omega (arith, accurate.buckets_le (length keys) few))
      (omega (arith, accurate.table_le (length keys) few)) h
