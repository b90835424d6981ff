-- ===== src/Base/Select.antt =====
-- The members of a list that pass a test, and its members without repetition.
use Prim.Native.Nat.{ℕ, zero, suc}
use mathlib.Core.Path.{◌≡◌, refl, sym, ap, ◌∙◌}
use mathlib.Core.Bool.{Bool, true, false, not, ◌&&◌}
use mathlib.Core.Logic.{inl, inr}
use mathlib.Core.List.{List, [], ◌∷◌, ◌++◌, map, flatten}
use native.Mathlib.Omega.{arith}
use setrixdb.Base.Tests.{◌==◌, ==_refl, ==_iff, if◌then◌else◌, Bool-cases}
use setrixdb.Base.Lists.{length, get_or}
use setrixdb.Base.Ids.{elem, Above, IsStrict, not-elem-Above, lt_of_elem-Above, Above-of_elem}

-- The members that pass a test, in order.
abbrev pub select : (ℕ → Bool) → List ℕ → List ℕ
select p [] = []
select p (x ∷ xs) = if p x then x ∷ select p xs else select p xs

-- The list without `x`.
abbrev pub without : ℕ → List ℕ → List ℕ
without x = select (λ y. not (y == x))

-- The first occurrence of each member, in order.
abbrev pub unique : List ℕ → List ℕ
unique [] = []
unique (x ∷ xs) = x ∷ without x (unique xs)

-- No member occurs twice.
abbrev pub IsUnique : List ℕ → Type 0
IsUnique [] = Unit
IsUnique (x ∷ xs) = (elem x xs ≡ false) × IsUnique xs

pub elem-select : (p : ℕ → Bool) (q : ℕ) (xs : List ℕ) → elem q (select p xs) ≡ (elem q xs && p q)
elem-select p q [] = refl
elem-select p q (x ∷ xs) = elim (Bool-cases (x == q)) [
  | inl e ↦ let same = (==_iff x q).0 e in rw same (ground (arith, elem-select p q xs, ==_refl q))
  | inr e ↦ ground (arith, elem-select p q xs)
]

pub select-append :
    (p : ℕ → Bool) (xs ys : List ℕ) → select p (xs ++ ys) ≡ select p xs ++ select p ys
select-append p [] ys = refl
select-append p (x ∷ xs) ys = ground (arith, select-append p xs ys)

pub elem-unique : (q : ℕ) (xs : List ℕ) → elem q (unique xs) ≡ elem q xs
elem-unique q [] = refl
elem-unique q (x ∷ xs) =
    ground (arith, elem-select (λ y. not (y == x)) q (unique xs), elem-unique q xs)

pub select-IsUnique : (p : ℕ → Bool) (xs : List ℕ) → IsUnique xs → IsUnique (select p xs)
select-IsUnique p [] u = tt
select-IsUnique p (x ∷ xs) u = elim (Bool-cases (p x)) [
  | inl e ↦ rw e (ground (arith, elem-select p x xs), select-IsUnique p xs u.1)
  | inr e ↦ rw e (select-IsUnique p xs u.1)
]

pub unique-IsUnique : (xs : List ℕ) → IsUnique (unique xs)
unique-IsUnique [] = tt
unique-IsUnique (x ∷ xs) = (
  ground (arith, elem-select (λ y. not (y == x)) x (unique xs)),
  select-IsUnique (λ y. not (y == x)) (unique xs) (unique-IsUnique xs),
)

pub select_ext :
    (p r : ℕ → Bool) (xs : List ℕ)
    → ((q : ℕ) → elem q xs ≡ true → p q ≡ r q)
    → select p xs ≡ select r xs
select_ext p r [] h = refl
select_ext p r (x ∷ xs) h =
    ground (arith, h x (ground arith), select_ext p r xs (λ q e. h q (ground arith)))

pub select-select :
    (p r : ℕ → Bool) (xs : List ℕ) → select p (select r xs) ≡ select (λ q. r q && p q) xs
select-select p r [] = refl
select-select p r (x ∷ xs) = ground (arith, select-select p r xs)

pub get_or-map-select :
    (p : ℕ → Bool) (parts : List (List ℕ)) (i : ℕ)
    → get_or (map (select p) parts) i [] ≡ select p (get_or parts i [])
get_or-map-select p [] i = refl
get_or-map-select p (x ∷ parts) zero = refl
get_or-map-select p (x ∷ parts) (suc i) = get_or-map-select p parts i

pub flatten-map-select :
    (p : ℕ → Bool) (parts : List (List ℕ))
    → flatten (map (select p) parts) ≡ select p (flatten parts)
unfolding flatten
flatten-map-select p [] = refl
flatten-map-select p (x ∷ parts) =
    ap (◌++◌ (select p x)) (flatten-map-select p parts) ∙ sym (select-append p x (flatten parts))

pub select_none : (xs : List ℕ) → select (λ q. false) xs ≡ []
select_none [] = refl
select_none (x ∷ xs) = select_none xs

-- Selecting and keeping first occurrences can be done in either order.
pub unique-select : (p : ℕ → Bool) (xs : List ℕ) → unique (select p xs) ≡ select p (unique xs)
unique-select p [] = refl
unique-select p (x ∷ xs) = elim (Bool-cases (p x)) [
  | inl e ↦
      rw (e, unique-select p xs)
        (ap (◌∷◌ x) (
          select-select (λ y. not (y == x)) p (unique xs)
          ∙ select_ext (λ q. p q && not (q == x)) (λ q. not (q == x) && p q) (unique xs)
              (λ q _. ground arith)
          ∙ sym (select-select p (λ y. not (y == x)) (unique xs))))
  | inr e ↦
      rw (e, unique-select p xs)
        (select_ext p (λ q. not (q == x) && p q) (unique xs)
            (λ q _. elim (Bool-cases (q == x)) [
              | inl same ↦ let s = (==_iff q x).0 same in rw (s, e, ==_refl x)
              | inr ne ↦ rw ne
            ])
          ∙ sym (select-select p (λ y. not (y == x)) (unique xs)))
]

-- A strictly ascending list selected by membership in another.
pub select-IsStrict : (p : ℕ → Bool) (xs : List ℕ) → IsStrict xs → IsStrict (select p xs)
select-IsStrict p [] s = tt
select-IsStrict p (x ∷ xs) s = elim (Bool-cases (p x)) [
  | inl e ↦ rw e (
    Above-of_elem x (select p xs)
        (λ q m. lt_of_elem-Above q x xs s.0 (ground (arith, elem-select p q xs))),
    select-IsStrict p xs s.1,
  )
  | inr e ↦ rw e (select-IsStrict p xs s.1)
]

pub select-drop_head :
    (b : ℕ) (o xs : List ℕ)
    → Above b xs
    → select (λ q. elem q (b ∷ o)) xs ≡ select (λ q. elem q o) xs
select-drop_head b o xs h =
    select_ext (λ q. elem q (b ∷ o)) (λ q. elem q o) xs
      (λ q m. ground (arith, lt_of_elem-Above q b xs h m))

-- Lists without repetitions and with the same members have the same length.
without-id : (x : ℕ) (xs : List ℕ) → elem x xs ≡ false → without x xs ≡ xs
without-id x [] h = refl
without-id x (y ∷ ys) h = ground (arith, without-id x ys)

length-without :
    (x : ℕ) (xs : List ℕ) → IsUnique xs → elem x xs ≡ true → suc (length (without x xs)) ≡ length xs
length-without x [] u h = cc
length-without x (y ∷ ys) u h = elim (Bool-cases (y == x)) [
  | inl e ↦
      let same = (==_iff y x).0 e in rw e (ap suc (ap length (without-id x ys (rw same at u.0))))
  | inr e ↦ rw e (ap suc (length-without x ys u.1 (rw e at h)))
]

pub length_of_same_elems :
    (xs ys : List ℕ)
    → IsUnique xs
    → IsUnique ys
    → ((q : ℕ) → elem q xs ≡ elem q ys)
    → length xs ≡ length ys
length_of_same_elems [] [] u v h = refl
length_of_same_elems [] (y ∷ ys) u v h = ground (arith, h y)
length_of_same_elems (x ∷ xs) ys u v h =
    ap suc (
      length_of_same_elems xs (without x ys) u.1 (select-IsUnique (λ y. not (y == x)) ys v) λ q.
        elim (Bool-cases (q == x)) [
          | inl e ↦
              let same = (==_iff q x).0 e in
              rw same (ground (arith, elem-select (λ y. not (y == x)) x ys))
          | inr e ↦ ground (arith, h q, elem-select (λ y. not (y == x)) q ys)
        ])
    ∙ length-without x ys v (ground (arith, h x))

pub IsUnique-of_IsStrict : (xs : List ℕ) → IsStrict xs → IsUnique xs
IsUnique-of_IsStrict [] s = tt
IsUnique-of_IsStrict (x ∷ xs) s =
    (not-elem-Above x x xs s.0 (omega arith), IsUnique-of_IsStrict xs s.1)
