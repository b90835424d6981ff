-- ===== src/Base/Ids.antt =====
-- Lists of IDs as sets: membership, ascending order, and that an ascending list is determined by
-- its members.
use Prim.Native.Nat.{ℕ, zero, suc, ◌≤◌, ◌<◌}
use mathlib.Core.Path.{◌≡◌, refl, sym, ap₂}
use mathlib.Core.Bool.{Bool, true, false, ◌||◌, ◌&&◌}
use mathlib.Core.Logic.{inl, inr}
use mathlib.Core.Logic.Or
use mathlib.Core.List.{Mem, Perm, mem-cons, not-mem-nil}
use mathlib.Core.List.Perm
use mathlib.Core.List.{List, [], ◌∷◌, ◌++◌}
use native.Mathlib.Omega.{arith}
use setrixdb.Base.Tests.{◌==◌, ltb, ==_iff, Bool-cases, Bool-ext}
use setrixdb.Base.Lists.{length, get_or, take, drop}

abbrev pub elem : ℕ → List ℕ → Bool
elem q [] = false
elem q (x ∷ xs) = x == q || elem q xs

-- Every member of the list is above `x`.
abbrev pub Above : ℕ → List ℕ → Type 0
Above x [] = Unit
Above x (y ∷ ys) = (x < y) × Above x ys

-- Strictly ascending.
abbrev pub IsStrict : List ℕ → Type 0
IsStrict [] = Unit
IsStrict (x ∷ xs) = Above x xs × IsStrict xs

-- No member of the list is below `x`.
abbrev pub AtLeast : ℕ → List ℕ → Type 0
AtLeast x [] = Unit
AtLeast x (y ∷ ys) = (x ≤ y) × AtLeast x ys

-- Ascending, with repetitions allowed.
abbrev pub IsSorted : List ℕ → Type 0
IsSorted [] = Unit
IsSorted (x ∷ xs) = AtLeast x xs × IsSorted xs

-- Every member is below `n`.
abbrev pub Below : ℕ → List ℕ → Type 0
Below n [] = Unit
Below n (x ∷ xs) = (x < n) × Below n xs

pub elem-append : (q : ℕ) (xs ys : List ℕ) → elem q (xs ++ ys) ≡ (elem q xs || elem q ys)
elem-append q [] ys = refl
elem-append q (x ∷ xs) ys = ground (arith, elem-append q xs ys)

pub Above-trans : (a b : ℕ) (xs : List ℕ) → a ≤ b → Above b xs → Above a xs
Above-trans a b [] h p = tt
Above-trans a b (x ∷ xs) h p = (omega arith, Above-trans a b xs h p.1)

pub AtLeast-trans : (a b : ℕ) (xs : List ℕ) → a ≤ b → AtLeast b xs → AtLeast a xs
AtLeast-trans a b [] h p = tt
AtLeast-trans a b (x ∷ xs) h p = (omega arith, AtLeast-trans a b xs h p.1)

pub AtLeast-of_Above : (a : ℕ) (xs : List ℕ) → Above a xs → AtLeast a xs
AtLeast-of_Above a [] p = tt
AtLeast-of_Above a (x ∷ xs) p = (omega arith, AtLeast-of_Above a xs p.1)

pub IsSorted-of_IsStrict : (xs : List ℕ) → IsStrict xs → IsSorted xs
IsSorted-of_IsStrict [] s = tt
IsSorted-of_IsStrict (x ∷ xs) s = (AtLeast-of_Above x xs s.0, IsSorted-of_IsStrict xs s.1)

pub not-elem-Above : (q x : ℕ) (xs : List ℕ) → Above x xs → q ≤ x → elem q xs ≡ false
not-elem-Above q x [] p h = refl
not-elem-Above q x (y ∷ ys) p h = ground (arith, not-elem-Above q x ys p.1 h)

pub not-elem-AtLeast : (q x : ℕ) (xs : List ℕ) → AtLeast x xs → q < x → elem q xs ≡ false
not-elem-AtLeast q x [] p h = refl
not-elem-AtLeast q x (y ∷ ys) p h = ground (arith, not-elem-AtLeast q x ys p.1 h)

pub not-elem-Below : (q n : ℕ) (xs : List ℕ) → Below n xs → n ≤ q → elem q xs ≡ false
not-elem-Below q n [] p h = refl
not-elem-Below q n (y ∷ ys) p h = ground (arith, not-elem-Below q n ys p.1 h)

pub lt_of_elem-Above : (q x : ℕ) (xs : List ℕ) → Above x xs → elem q xs ≡ true → x < q
lt_of_elem-Above q x [] p h = cc
lt_of_elem-Above q x (y ∷ ys) p h = ground (arith, lt_of_elem-Above q x ys p.1)

pub Above-of_elem : (x : ℕ) (xs : List ℕ) → ((q : ℕ) → elem q xs ≡ true → x < q) → Above x xs
Above-of_elem x [] h = tt
Above-of_elem x (y ∷ ys) h = (h y (ground arith), Above-of_elem x ys (λ q e. h q (ground arith)))

-- Two strictly ascending lists with the same members are equal.
pub IsStrict-ext :
    (xs ys : List ℕ) → IsStrict xs → IsStrict ys → ((q : ℕ) → elem q xs ≡ elem q ys) → xs ≡ ys
IsStrict-ext [] [] s t h = refl
IsStrict-ext [] (y ∷ ys) s t h = ground (arith, h y)
IsStrict-ext (x ∷ xs) [] s t h = ground (arith, h x)
IsStrict-ext (x ∷ xs) (y ∷ ys) s t h =
    let heads : x ≡ y =
      ground (arith, h x, h y, not-elem-Above x y ys t.0, not-elem-Above y x xs s.0) in
    ap₂ ◌∷◌ heads (
      IsStrict-ext xs ys s.1 t.1
        λ q. ground (arith, h q, heads, not-elem-Above q x xs s.0, not-elem-Above q y ys t.0))

-- An ascending list by its indices.
pub get_or-AtLeast :
    (x : ℕ) (xs : List ℕ) (i : ℕ) → AtLeast x xs → i < length xs → x ≤ get_or xs i 0
get_or-AtLeast x [] i p h = absurd (omega arith)
get_or-AtLeast x (y ∷ ys) zero p h = p.0
get_or-AtLeast x (y ∷ ys) (suc i) p h = get_or-AtLeast x ys i p.1 (omega arith)

pub get_or_mono :
    (xs : List ℕ) (i j : ℕ) → IsSorted xs → i ≤ j → j < length xs → get_or xs i 0 ≤ get_or xs j 0
get_or_mono [] i j s h k = absurd (omega arith)
get_or_mono (x ∷ xs) zero zero s h k = omega arith
get_or_mono (x ∷ xs) zero (suc j) s h k = get_or-AtLeast x xs j s.0 (omega arith)
get_or_mono (x ∷ xs) (suc i) zero s h k = absurd (omega arith)
get_or_mono (x ∷ xs) (suc i) (suc j) s h k = get_or_mono xs i j s.1 (omega arith) (omega arith)

-- Membership in an ascending list, read at the place that splits it at `q`.
pub elem_at :
    (q : ℕ) (xs : List ℕ) (k : ℕ)
    → IsSorted xs
    → k ≤ length xs
    → ((i : ℕ) → i < k → get_or xs i 0 < q)
    → (k < length xs → q ≤ get_or xs k 0)
    → elem q xs ≡ (ltb k (length xs) && get_or xs k 0 == q)
elem_at q [] zero s h lo hi = refl
elem_at q [] (suc k) s h lo hi = absurd (omega arith)
elem_at q (x ∷ xs) zero s h lo hi = ground (arith, not-elem-AtLeast q x xs s.0)
elem_at q (x ∷ xs) (suc k) s h lo hi = ground (
  arith,
  lo 0,
  elem_at q xs k s.1 (omega arith) (λ i p. lo (suc i) (omega arith)) (λ p. hi (omega arith)),
)

-- Rearranging a list keeps its members.
pub elem-Mem : (q : ℕ) (xs : List ℕ) → elem q xs ≡ true → Mem q xs
elem-Mem q [] h = cc
elem-Mem q (x ∷ xs) h = elim (Bool-cases (x == q)) [
  | inl e ↦ mem-cons.1 (Or.inl (sym ((==_iff x q).0 e)))
  | inr e ↦ mem-cons.1 (Or.inr (elem-Mem q xs (rw e at h)))
]

pub Mem-elem : (q : ℕ) (xs : List ℕ) → Mem q xs → elem q xs ≡ true
Mem-elem q [] m = absurd (not-mem-nil m)
Mem-elem q (x ∷ xs) m =
    Or.elim (hlevel) (mem-cons.0 m) (λ e. ground arith) (λ r. ground (arith, Mem-elem q xs r))

pub elem-perm : (q : ℕ) {xs ys : List ℕ} → Perm xs ys → elem q xs ≡ elem q ys
elem-perm q {xs} {ys} p =
    Bool-ext (elem q xs) (elem q ys) (λ e. Mem-elem q ys ((Perm.mem_iff p).0 (elem-Mem q xs e)))
      (λ e. Mem-elem q xs ((Perm.mem_iff p).1 (elem-Mem q ys e)))

pub lt_of_elem : (q n : ℕ) (xs : List ℕ) → Below n xs → elem q xs ≡ true → q < n
lt_of_elem q n [] h e = cc
lt_of_elem q n (x ∷ xs) h e = ground (arith, lt_of_elem q n xs h.1)

pub take-Below : (n k : ℕ) (xs : List ℕ) → Below k xs → Below k (take n xs)
take-Below zero k xs h = tt
take-Below (suc n) k [] h = tt
take-Below (suc n) k (x ∷ xs) h = (h.0, take-Below n k xs h.1)

pub drop-Below : (n k : ℕ) (xs : List ℕ) → Below k xs → Below k (drop n xs)
drop-Below zero k xs h = h
drop-Below (suc n) k [] h = tt
drop-Below (suc n) k (x ∷ xs) h = drop-Below n k xs h.1

pub AtLeast-append : (n : ℕ) (xs ys : List ℕ) → AtLeast n xs → AtLeast n ys → AtLeast n (xs ++ ys)
AtLeast-append n [] ys h k = k
AtLeast-append n (x ∷ xs) ys h k = (h.0, AtLeast-append n xs ys h.1 k)

Above-append : (n b : ℕ) (xs ys : List ℕ) → n < b → Above n xs → AtLeast b ys → Above n (xs ++ ys)
Above-append n b [] [] h p k = tt
Above-append n b [] (y ∷ ys) h p k = (omega arith, Above-append n b [] ys h tt k.1)
Above-append n b (x ∷ xs) ys h p k = (p.0, Above-append n b xs ys h p.1 k)

-- Two strictly ascending lists on the two sides of a bound.
pub IsStrict-append :
    (b : ℕ) (xs ys : List ℕ)
    → IsStrict xs
    → IsStrict ys
    → Below b xs
    → AtLeast b ys
    → IsStrict (xs ++ ys)
IsStrict-append b [] ys s t h k = t
IsStrict-append b (x ∷ xs) ys s t h k =
    (Above-append x b xs ys h.0 s.0 k, IsStrict-append b xs ys s.1 t h.1 k)
