-- ===== src/Index.antt =====
-- setrixdb.go: `Index`, a perfect hash of a set of keys.
use setrixdb.Base.{
  Option-cases, none_ne_some, some_inj, length, get_or, ℕ, ◌^◌, ◌<◌, ◌≡◌, ap, subst, inl, inr,
  Option, none, some, List, arith,
}
use setrixdb.Mphf.{Chd}
use setrixdb.Mphf
use setrixdb.Mphf.Build.{Sizes, build}
use setrixdb.Mphf.Build.Correct.{IsAccurate, build-IsPerfect}

pub record Index : Type 0 where
  pub c : Chd

unfoldable pub build_index : Sizes → List ℕ → Option Index
build_index sizes keys = elim (build sizes keys 0xADDB) [
  | none ↦ none
  | some c ↦ some (record { c = c })
]

pub lookup : Index → ℕ → Option ℕ
lookup i key = Mphf.lookup i.c key

pub len : Index → ℕ
len i = i.c.n

unfoldable pub byte_size : Index → ℕ
byte_size i = Mphf.byte_size i.c

-- An index that is built over fewer than 2 ^ 30 keys has their number as its length, an ID below it for
-- each of them, different IDs for different places, and no ID past it for any other key.
pub build_index_lem :
    (sizes : Sizes) (keys : List ℕ) (i : Index)
    → IsAccurate sizes
    → length keys < 2 ^ 30
    → build_index sizes keys ≡ some i
    → (len i ≡ length keys)
      × ((j : ℕ) → j < length keys → (id : ℕ) × (lookup i (get_or keys j 0) ≡ some id))
      × ((key id : ℕ) → lookup i key ≡ some id → id < len i)
      × ((j l : ℕ)
          → j < length keys
          → l < length keys
          → lookup i (get_or keys j 0) ≡ lookup i (get_or keys l 0)
          → j ≡ l)
unfolding build_index len lookup
build_index_lem sizes keys i accurate few h =
    let Ends : Option Chd → Type 0 =
      λ built. elim built [ none ↦ none | some c ↦ some (record { c = c }) ] ≡ some i in
    elim (Option-cases (build sizes keys 0xADDB)) [
      | inl e ↦ absurd (none_ne_some i (subst Ends e h))
      | inr (c, e) ↦
          let perfect = build-IsPerfect sizes keys 0xADDB c accurate few e in
          let same : c ≡ i.c = ap (λ (x : Index). x.c) (some_inj _ i (subst Ends e h)) in
          subst
            (λ (d : Chd).
              (d.n ≡ length keys)
              × ((j : ℕ) → j < length keys → (id : ℕ) × (Mphf.lookup d (get_or keys j 0) ≡ some id))
              × ((key id : ℕ) → Mphf.lookup d key ≡ some id → id < d.n)
              × ((j l : ℕ)
                  → j < length keys
                  → l < length keys
                  → Mphf.lookup d (get_or keys j 0) ≡ Mphf.lookup d (get_or keys l 0)
                  → j ≡ l))
            same
            (
              perfect.counted,
              perfect.found,
              λ key id own. omega (arith, perfect.bounded key id own, perfect.counted),
              perfect.apart,
            )
    ]
