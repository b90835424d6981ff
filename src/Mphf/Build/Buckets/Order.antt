-- ===== src/Mphf/Build/Buckets/Order.antt =====
-- The buckets with keys, each listed once, and the keys in them.
use setrixdb.Base.{
  ltb, ◌==◌, if◌then◌else◌, Bool-cases, length, get_or, elem, AtLeast, AtLeast-trans,
  not-elem-AtLeast, IsUnique, ℕ, zero, suc, ◌+◌, ◌≤◌, ◌<◌, ◌≡◌, refl, inl, inr, true, false, List,
  [], ◌∷◌, arith,
}
use setrixdb.Mphf.Build.{nonempty_from}
use setrixdb.Mphf.Build.Buckets.{occ}

pub nonempty_from-AtLeast : (b : ℕ) (starts ends : List ℕ) → AtLeast b (nonempty_from b starts ends)
unfolding nonempty_from
nonempty_from-AtLeast b [] ends = tt
nonempty_from-AtLeast b (s ∷ starts) [] = tt
nonempty_from-AtLeast b (s ∷ starts) (e ∷ ends) =
    let rest =
      AtLeast-trans b (b + 1) (nonempty_from (b + 1) starts ends) (omega arith)
        (nonempty_from-AtLeast (b + 1) starts ends) in
    elim (Bool-cases (ltb s e)) [ inl h ↦ rw h (omega arith, rest) | inr h ↦ rw h rest ]

pub nonempty_from-IsUnique : (b : ℕ) (starts ends : List ℕ) → IsUnique (nonempty_from b starts ends)
unfolding nonempty_from
nonempty_from-IsUnique b [] ends = tt
nonempty_from-IsUnique b (s ∷ starts) [] = tt
nonempty_from-IsUnique b (s ∷ starts) (e ∷ ends) =
    let rest : List ℕ = nonempty_from (b + 1) starts ends in
    let unique = nonempty_from-IsUnique (b + 1) starts ends in
    elim (Bool-cases (ltb s e)) [
      | inl h ↦ rw h (
        not-elem-AtLeast b (b + 1) rest (nonempty_from-AtLeast (b + 1) starts ends) (omega arith),
        unique,
      )
      | inr h ↦ rw h unique
    ]

pub lt_of_elem-nonempty_from :
    (b j : ℕ) (starts ends : List ℕ)
    → elem j (nonempty_from b starts ends) ≡ true
    → j < b + length starts
unfolding nonempty_from
lt_of_elem-nonempty_from b j [] ends h = cc
lt_of_elem-nonempty_from b j (s ∷ starts) [] h = cc
lt_of_elem-nonempty_from b j (s ∷ starts) (e ∷ ends) h =
    ground (arith, lt_of_elem-nonempty_from (b + 1) j starts ends)

pub elem-nonempty_from :
    (b k : ℕ) (starts ends : List ℕ)
    → k < length starts
    → k < length ends
    → get_or starts k 0 < get_or ends k 0
    → elem (b + k) (nonempty_from b starts ends) ≡ true
unfolding nonempty_from
elem-nonempty_from b k [] ends h h' less = absurd (omega arith)
elem-nonempty_from b k (s ∷ starts) [] h h' less = absurd (omega arith)
elem-nonempty_from b zero (s ∷ starts) (e ∷ ends) h h' less = ground arith
elem-nonempty_from b (suc k) (s ∷ starts) (e ∷ ends) h h' less =
    let place : b + suc k ≡ b + 1 + k = omega arith in
    let rest = elem-nonempty_from (b + 1) k starts ends (omega arith) (omega arith) less in
    rw place (ground (arith, rest))

-- The keys in the listed buckets.
abbrev pub total_occ : List ℕ → List ℕ → ℕ
total_occ hs [] = 0
total_occ hs (j ∷ order) = occ j hs + total_occ hs order

abbrev hits : ℕ → List ℕ → ℕ
hits h [] = 0
hits h (j ∷ order) = (if h == j then 1 else 0) + hits h order

hits_none : (h : ℕ) (order : List ℕ) → elem h order ≡ false → hits h order ≡ 0
hits_none h [] e = refl
hits_none h (j ∷ order) e = ground (arith, hits_none h order)

hits_once : (h : ℕ) (order : List ℕ) → IsUnique order → hits h order ≤ 1
hits_once h [] u = omega arith
hits_once h (j ∷ order) u = elim (Bool-cases (h == j)) [
  | inl e ↦
      let same : h ≡ j = ground arith in
      let others : hits h order ≡ 0 = hits_none h order (rw same u.0) in rw e (omega arith)
  | inr e ↦ rw e (omega (arith, hits_once h order u.1))
]

total_occ-cons :
    (h : ℕ) (hs order : List ℕ) → total_occ (h ∷ hs) order ≡ hits h order + total_occ hs order
total_occ-cons h hs [] = refl
total_occ-cons h hs (j ∷ order) = omega (arith, total_occ-cons h hs order)

total_occ-nil : (order : List ℕ) → total_occ [] order ≡ 0
total_occ-nil [] = refl
total_occ-nil (j ∷ order) = omega (arith, total_occ-nil order)

pub total_occ-le : (hs order : List ℕ) → IsUnique order → total_occ hs order ≤ length hs
total_occ-le [] order u = omega (arith, total_occ-nil order)
total_occ-le (h ∷ hs) order u =
    omega (arith, total_occ-cons h hs order, hits_once h order u, total_occ-le hs order u)
