-- ===== src/Keyer.antt =====
-- keyer.go: terms and their IDs, over the perfect hash. A term is the list of its bytes.
pub mod Terms
pub mod Chain
pub mod Placing
pub mod Probes
pub mod Exact
pub mod Hashed
pub mod Built
pub mod Sets
mod Examples
use setrixdb.Base.{
  ltb, leb, ◌==◌, if◌then◌else◌, length, get_or, set, replicate, elem, unique, u64, str_eq, has_str,
  find_str, ℕ, zero, suc, ◌+◌, ◌*◌, ◌/◌, ◌^◌, bit_xor, ◌&&◌, Option, none, some, List, [], ◌∷◌,
}
use setrixdb.Addb.Hash.{compute_deterministic_id}
use setrixdb.Mphf.{Chd}
use setrixdb.Mphf
use setrixdb.IdSet.{IdSet, new_set}
use setrixdb.Mphf.Build.{Sizes, build}

abbrev pub keyer_max_probe : ℕ
keyer_max_probe = 16

abbrev pub keyer_small_max : ℕ
keyer_small_max = 4096

abbrev pub keyer_salt : ℕ
keyer_salt = 0x9E3779B97F4A7C15

-- `c` and `small` are `none` where the source has nil.
pub record Keyer : Type 0 where
  pub c : Option Chd
  pub small : Option (List (List ℕ × ℕ))
  pub terms : List (List ℕ)
  pub max_probe : ℕ
  pub colisoes : ℕ

pub data KeyerError : Type 0 where
  probes_exhausted : List ℕ → KeyerError
  build_failed : KeyerError
  key_without_id : List ℕ → KeyerError
  id_without_term : ℕ → KeyerError

pub data Outcome {ℓ} (A : Type ℓ) : Type ℓ where
  ok : A → Outcome A
  failed : KeyerError → Outcome A

unfoldable pub mix64 : ℕ → ℕ
mix64 x =
    let x₁ = u64 (bit_xor x (x / 2 ^ 33) * 0xFF51AFD7ED558CCD) in
    let x₂ = u64 (bit_xor x₁ (x₁ / 2 ^ 33) * 0xC4CEB9FE1A85EC53) in bit_xor x₂ (x₂ / 2 ^ 33)

unfoldable pub candidato : ℕ → ℕ → ℕ
unfolding mix64
candidato base i = mix64 (u64 (base + u64 (i * keyer_salt)))

-- The key tried after so many others: the hash of the term, then its candidates.
pub key_at : ℕ → ℕ → ℕ
key_at base probe = if ltb 0 probe then candidato base probe else base

-- `vistos` and `unicos`: each term once, where it stands first.
unfoldable pub unicos : List (List ℕ) → List (List ℕ) → List (List ℕ)
unicos vistos [] = []
unicos vistos (t ∷ terms) =
    let rest = unicos vistos terms in
    let marked = unicos (t ∷ vistos) terms in if has_str t vistos then rest else t ∷ marked

-- `for i, t := range unicos { k.small[t] = uint64(i) }` at `i`.
pub put_small : ℕ → List (List ℕ) → List (List ℕ × ℕ) → List (List ℕ × ℕ)
put_small i [] small = small
put_small i (t ∷ terms) small = put_small (i + 1) terms ((t, i) ∷ small)

-- The number of candidates passed over until a key is free, or `none` when they run out. `left` is
-- what the limit leaves.
pub first_free : List ℕ → ℕ → ℕ → ℕ → Option ℕ
unfolding key_at
first_free taken base zero probe = none
first_free taken base (suc left) probe =
    let rest = first_free taken base left (probe + 1) in
    if elem (key_at base probe) taken then rest else some probe

pub record Assigned : Type 0 where
  pub keys : List ℕ
  pub max_probe : ℕ
  pub colisoes : ℕ

with_key : ℕ → Outcome Assigned → Outcome Assigned
with_key key (failed e) = failed e
with_key key (ok a) =
    ok (record { keys = key ∷ a.keys; max_probe = a.max_probe; colisoes = a.colisoes })

-- `for i, t := range unicos { … }` over the terms that are left: `keys` from there on, and both
-- counters at the end.
pub assign : List (List ℕ) → List ℕ → ℕ → ℕ → Outcome Assigned
unfolding first_free key_at with_key
assign [] taken max_probe colisoes =
    ok (record { keys = []; max_probe = max_probe; colisoes = colisoes })
assign (t ∷ terms) taken max_probe colisoes =
    let base = compute_deterministic_id t in
    elim (first_free taken base (keyer_max_probe + 1) 0) [
      | none ↦ failed (probes_exhausted t)
      | some probe ↦ with_key (key_at base probe) (
          assign terms (key_at base probe ∷ taken)
            (if ltb max_probe probe then probe else max_probe)
            (if ltb 0 probe then colisoes + 1 else colisoes))
    ]

-- `for i, key := range keys { … termosPorID[id] = unicos[i] }` over the keys that are left.
pub place_terms : Chd → List ℕ → List (List ℕ) → List (List ℕ) → Outcome (List (List ℕ))
place_terms c [] terms por_id = ok por_id
place_terms c (k ∷ keys) [] por_id = ok por_id
place_terms c (k ∷ keys) (t ∷ terms) por_id = elim (Mphf.lookup c k) [
  | none ↦ failed (key_without_id t)
  | some id ↦ place_terms c keys terms (set por_id id t)
]

-- The first ID from `i` on without a term.
pub first_empty : ℕ → List (List ℕ) → Option ℕ
first_empty i [] = none
first_empty i ([] ∷ por_id) = some i
first_empty i ((b ∷ t) ∷ por_id) = first_empty (i + 1) por_id

pub small_keyer : List (List ℕ) → Keyer
unfolding put_small
small_keyer terms = record {
  c = none;
  small = some (put_small 0 terms []);
  terms = terms;
  max_probe = 0;
  colisoes = 0;
}

-- The end of `BuildKeyer`, over the hash.
pub finish_keyer : Chd → List (List ℕ) → Assigned → Outcome Keyer
unfolding place_terms first_empty
finish_keyer c terms a = elim (place_terms c a.keys terms (replicate (length terms) [])) [
  | failed e ↦ failed e
  | ok por_id ↦ elim (first_empty 0 por_id) [
    | some id ↦ failed (id_without_term id)
    | none ↦ ok (record {
      c = some c;
      small = none;
      terms = por_id;
      max_probe = a.max_probe;
      colisoes = a.colisoes;
    })
  ]
]

-- `BuildKeyer` past the small vocabularies.
pub hash_keyer : Sizes → List (List ℕ) → Outcome Keyer
unfolding assign finish_keyer
hash_keyer sizes terms = elim (assign terms [] 0 0) [
  | failed e ↦ failed e
  | ok a ↦ elim (build sizes a.keys 0xADDB) [
    | none ↦ failed build_failed
    | some c ↦ finish_keyer c terms a
  ]
]

pub build_keyer : Sizes → List (List ℕ) → Outcome Keyer
unfolding unicos small_keyer hash_keyer
build_keyer sizes terms =
    let unique = unicos [] terms in
    if length unique == 0
    then ok (record { c = none; small = none; terms = []; max_probe = 0; colisoes = 0 })
    else (if leb (length unique) keyer_small_max
        then ok (small_keyer unique)
        else hash_keyer sizes unique)

pub len : Keyer → ℕ
len k = length k.terms

unfoldable pub byte_size : Keyer → ℕ
byte_size k = elim k.c [ none ↦ 0 | some c ↦ Mphf.byte_size c ]

-- `for probe := …; probe <= k.maxProbe; probe++ { … }` at `probe`, with so many rounds left.
pub probe_loop : Chd → List (List ℕ) → List ℕ → ℕ → ℕ → Option ℕ
unfolding key_at
probe_loop c terms term zero probe = none
probe_loop c terms term (suc left) probe =
    let rest = probe_loop c terms term left (probe + 1) in
    elim (Mphf.lookup c (key_at (compute_deterministic_id term) probe)) [
      | none ↦ rest
      | some id ↦
          if ltb id (length terms) && str_eq (get_or terms id []) term then some id else rest
    ]

pub lookup : Keyer → List ℕ → Option ℕ
unfolding probe_loop
lookup k t = elim k.small [
  | some small ↦ find_str t small
  | none ↦ elim k.c [ none ↦ none | some c ↦ probe_loop c k.terms t (k.max_probe + 1) 0 ]
]

pub term : Keyer → ℕ → Option (List ℕ)
term k id = if leb (length k.terms) id then none else some (get_or k.terms id [])

-- The loop of `IDSet`: the IDs found, and `faltando`.
pub collect : List ℕ → Option ℕ → List ℕ × List (List ℕ) → List ℕ × List (List ℕ)
collect t (some id) (ids, faltando) = (id ∷ ids, faltando)
collect t none (ids, faltando) = (ids, t ∷ faltando)

pub ids_of : Keyer → List (List ℕ) → List ℕ × List (List ℕ)
unfolding lookup collect
ids_of k [] = ([], [])
ids_of k (t ∷ terms) = collect t (lookup k t) (ids_of k terms)

pub id_set : Keyer → List (List ℕ) → IdSet × List (List ℕ)
unfolding ids_of
id_set k terms = let found = ids_of k terms in (new_set found.0, found.1)
