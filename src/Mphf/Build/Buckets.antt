-- ===== src/Mphf/Build/Buckets.antt =====
-- The grouping by bucket: every key stands in the range of its bucket.
pub mod Filling
pub mod Order
use setrixdb.Base.{
  ltb, ◌==◌, if◌then◌else◌, ==_refl, Bool-cases, length, get_or, replicate, length-set,
  get_or-set_self, get_or-set_ne, get_or-replicate, length-replicate, Below, u32_mod, u32, ℕ, zero,
  suc, ◌+◌, ◌≤◌, ◌<◌, ◌≡◌, refl, sym, ap, ◌∙◌, inl, inr, List, [], ◌∷◌, arith,
}
use setrixdb.Mphf.Build.{bump, count_keys, starts_from}

-- How many keys have the bucket `j`, and how many a bucket below `j`.
abbrev pub occ : ℕ → List ℕ → ℕ
occ j [] = 0
occ j (h ∷ hs) = (if h == j then 1 else 0) + occ j hs

abbrev pub lt_count : ℕ → List ℕ → ℕ
lt_count j [] = 0
lt_count j (h ∷ hs) = (if ltb h j then 1 else 0) + lt_count j hs

pub lt_count-suc : (j : ℕ) (hs : List ℕ) → lt_count (j + 1) hs ≡ lt_count j hs + occ j hs
lt_count-suc j [] = omega arith
lt_count-suc j (h ∷ hs) = ground (arith, lt_count-suc j hs)

pub lt_count-zero : (hs : List ℕ) → lt_count 0 hs ≡ 0
lt_count-zero [] = refl
lt_count-zero (h ∷ hs) = ground (arith, lt_count-zero hs)

pub lt_count-le : (j : ℕ) (hs : List ℕ) → lt_count j hs ≤ length hs
lt_count-le j [] = omega arith
lt_count-le j (h ∷ hs) = ground (arith, lt_count-le j hs)

pub lt_count_mono : (i j : ℕ) (hs : List ℕ) → i ≤ j → lt_count i hs ≤ lt_count j hs
lt_count_mono i j [] h = omega arith
lt_count_mono i j (b ∷ hs) h = ground (arith, lt_count_mono i j hs h)

pub get_or-bump :
    (counts : List ℕ) (j i : ℕ)
    → j < length counts
    → get_or counts j 0 + 1 < u32_mod
    → get_or (bump counts j) i 0 ≡ (if i == j then get_or counts j 0 + 1 else get_or counts i 0)
unfolding bump
get_or-bump counts j i h small = elim (Bool-cases (i == j)) [
  | inl e ↦
      let same : i ≡ j = ground arith in
      rw (e, same, get_or-set_self counts j (u32 (get_or counts j 0 + 1)) 0 h) (omega arith)
  | inr e ↦ rw (e, get_or-set_ne counts j i (u32 (get_or counts j 0 + 1)) 0 (ground arith)) refl
]

pub length-bump : (counts : List ℕ) (j : ℕ) → length (bump counts j) ≡ length counts
unfolding bump
length-bump counts j = length-set counts j (u32 (get_or counts j 0 + 1))

pub length-count_keys : (hs counts : List ℕ) → length (count_keys counts hs) ≡ length counts
unfolding count_keys
length-count_keys [] counts = refl
length-count_keys (h ∷ hs) counts = length-count_keys hs (bump counts h) ∙ length-bump counts h

pub get_or-count_keys :
    (hs counts : List ℕ) (j : ℕ)
    → Below (length counts) hs
    → ((i : ℕ) → get_or counts i 0 + occ i hs < u32_mod)
    → get_or (count_keys counts hs) j 0 ≡ get_or counts j 0 + occ j hs
unfolding count_keys
get_or-count_keys [] counts j inside small = omega arith
get_or-count_keys (h ∷ hs) counts j (here, inside) small =
    let one : get_or counts h 0 + 1 < u32_mod = ground (arith, small h, ==_refl h) in
    let step = get_or-bump counts h in
    get_or-count_keys hs (bump counts h) j (rw (length-bump counts h) inside)
      (λ i. ground (arith, step i here one, small i))
    ∙ ground (arith, step j here one)

pub length-starts_from : (s : ℕ) (counts : List ℕ) → length (starts_from s counts) ≡ length counts
unfolding starts_from
length-starts_from s [] = refl
length-starts_from s (c ∷ counts) = ap suc (length-starts_from (u32 (s + c)) counts)

pub get_or-starts_from :
    (hs counts : List ℕ) (b j : ℕ)
    → length hs < u32_mod
    → ((k : ℕ) → k < length counts → get_or counts k 0 ≡ occ (b + k) hs)
    → j < length counts
    → get_or (starts_from (lt_count b hs) counts) j 0 ≡ lt_count (b + j) hs
unfolding starts_from
get_or-starts_from hs [] b j few all h = absurd (omega arith)
get_or-starts_from hs (c ∷ counts) b zero few all h =
    ap (λ (k : ℕ). lt_count k hs) {x = b} {y = b + 0} (omega arith)
get_or-starts_from hs (c ∷ counts) b (suc j) few all h =
    let first : c ≡ occ b hs =
      all 0 (omega arith) ∙ ap (λ (k : ℕ). occ k hs) {x = b + 0} {y = b} (omega arith) in
    let next : u32 (lt_count b hs + c) ≡ lt_count (b + 1) hs =
      omega (arith, first, lt_count-suc b hs, lt_count-le (b + 1) hs) in
    let place : b + suc j ≡ b + 1 + j = omega arith in
    rw (next, place)
      (get_or-starts_from hs counts (b + 1) j few
        (λ k q.
          all (suc k) (omega arith)
          ∙ ap (λ (t : ℕ). occ t hs) {x = b + suc k} {y = b + 1 + k} (omega arith))
        (omega arith))

pub occ-le : (j : ℕ) (hs : List ℕ) → occ j hs ≤ length hs
occ-le j hs = omega (arith, lt_count-suc j hs, lt_count-le (j + 1) hs)

-- `starts[j]` is the number of keys in the buckets before `j`.
pub get_or-starts :
    (hs : List ℕ) (nb j : ℕ)
    → length hs < u32_mod
    → Below nb hs
    → j < nb
    → get_or (starts_from 0 (count_keys (replicate nb 0) hs)) j 0 ≡ lt_count j hs
get_or-starts hs nb j few inside h =
    let zeros : List ℕ = replicate nb 0 in
    let counts : List ℕ = count_keys zeros hs in
    let sizes : length counts ≡ nb = length-count_keys hs zeros ∙ length-replicate {A = ℕ} nb 0 in
    let empty : (k : ℕ) → get_or zeros k 0 ≡ 0 = λ k. get_or-replicate {A = ℕ} nb k 0 in
    let counted : (k : ℕ) → get_or counts k 0 ≡ occ k hs = λ k.
      get_or-count_keys hs zeros k (rw (length-replicate {A = ℕ} nb 0) inside)
        (λ i. omega (arith, empty i, occ-le i hs))
      ∙ omega (arith, empty k) in
    ap (λ (t : ℕ). get_or (starts_from t counts) j 0) (sym (lt_count-zero hs))
    ∙ get_or-starts_from hs counts 0 j few
        (λ k q. counted k ∙ ap (λ (t : ℕ). occ t hs) {x = k} {y = 0 + k} (omega arith))
        (omega (arith, sizes))
    ∙ ap (λ (t : ℕ). lt_count t hs) {x = 0 + j} {y = j} (omega arith)

pub get_or-lt : (n : ℕ) (xs : List ℕ) (i : ℕ) → Below n xs → i < length xs → get_or xs i 0 < n
get_or-lt n [] i below h = absurd (omega arith)
get_or-lt n (x ∷ xs) zero below h = below.0
get_or-lt n (x ∷ xs) (suc i) below h = get_or-lt n xs i below.1 (omega arith)
