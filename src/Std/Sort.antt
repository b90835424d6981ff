-- ===== src/Std/Sort.antt =====
-- `sort.Slice(s, func(i, j int) bool { return s[i] < s[j] })` on a `[]uint64`. Equal numbers cannot
-- be told apart, so the ascending rearrangement that the library leaves in `s` is the only one.
use mathlib.Core.List.{Perm}
use mathlib.Core.List.Perm
use setrixdb.Base.{
  ℕ, ◌≤◌, ◌≡◌, refl, ap, ◌∙◌, ◌||◌, List, [], ◌∷◌, arith, leb, if◌then◌else◌, Bool-cases, inl, inr,
  ◌==◌, elem, AtLeast, IsSorted, AtLeast-trans,
}

insert : ℕ → List ℕ → List ℕ
insert x [] = x ∷ []
insert x (y ∷ ys) = if leb x y then x ∷ y ∷ ys else y ∷ insert x ys

unfoldable pub sort_slice : List ℕ → List ℕ
unfolding insert
sort_slice [] = []
sort_slice (x ∷ xs) = insert x (sort_slice xs)

elem-insert : (q x : ℕ) (xs : List ℕ) → elem q (insert x xs) ≡ (x == q || elem q xs)
unfolding insert
elem-insert q x [] = refl
elem-insert q x (y ∷ ys) = ground (arith, elem-insert q x ys)

insert-AtLeast : (a x : ℕ) (xs : List ℕ) → a ≤ x → AtLeast a xs → AtLeast a (insert x xs)
unfolding insert
insert-AtLeast a x [] h p = (h, tt)
insert-AtLeast a x (y ∷ ys) h p = ground (arith, insert-AtLeast a x ys h p.1)

insert-IsSorted : (x : ℕ) (xs : List ℕ) → IsSorted xs → IsSorted (insert x xs)
unfolding insert
insert-IsSorted x [] s = (tt, tt)
insert-IsSorted x (y ∷ ys) s = elim (Bool-cases (leb x y)) [
  | inl e ↦ rw e ((ground arith, AtLeast-trans x y ys (ground arith) s.0), s)
  | inr e ↦ rw e (insert-AtLeast y x ys (ground arith) s.0, insert-IsSorted x ys s.1)
]

insert-perm : (x : ℕ) (xs : List ℕ) → Perm (insert x xs) (x ∷ xs)
unfolding insert
insert-perm x [] = Perm.rfl
insert-perm x (y ∷ ys) = elim (Bool-cases (leb x y)) [
  | inl e ↦ rw e Perm.rfl
  | inr e ↦ rw e (Perm.trans (Perm.cons y (insert-perm x ys)) (Perm.swap x y ys))
]

insert_least : (x : ℕ) (xs : List ℕ) → AtLeast x xs → insert x xs ≡ x ∷ xs
unfolding insert
insert_least x [] p = refl
insert_least x (y ∷ ys) p = ground arith

pub elem-sort_slice : (q : ℕ) (xs : List ℕ) → elem q (sort_slice xs) ≡ elem q xs
unfolding sort_slice
elem-sort_slice q [] = refl
elem-sort_slice q (x ∷ xs) = ground (arith, elem-insert q x (sort_slice xs), elem-sort_slice q xs)

pub sort_slice-IsSorted : (xs : List ℕ) → IsSorted (sort_slice xs)
unfolding sort_slice
sort_slice-IsSorted [] = tt
sort_slice-IsSorted (x ∷ xs) = insert-IsSorted x (sort_slice xs) (sort_slice-IsSorted xs)

pub sort_slice-perm : (xs : List ℕ) → Perm (sort_slice xs) xs
unfolding sort_slice
sort_slice-perm [] = Perm.rfl
sort_slice-perm (x ∷ xs) =
    Perm.trans (insert-perm x (sort_slice xs)) (Perm.cons x (sort_slice-perm xs))

-- An ascending slice is left as it is.
pub sort_slice_of_IsSorted : (xs : List ℕ) → IsSorted xs → sort_slice xs ≡ xs
unfolding sort_slice
sort_slice_of_IsSorted [] s = refl
sort_slice_of_IsSorted (x ∷ xs) s =
    ap (insert x) (sort_slice_of_IsSorted xs s.1) ∙ insert_least x xs s.0
