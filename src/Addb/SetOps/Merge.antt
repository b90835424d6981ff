-- ===== src/Addb/SetOps/Merge.antt =====
-- The merge intersection computes exactly the common members, in ascending order.
use mathlib.Core.List.{append-nil, append_assoc}
use setrixdb.Base.{
  ℕ, ◌≡◌, refl, sym, Bool, true, false, ◌&&◌, List, [], ◌∷◌, ◌++◌, length, elem, ltb, ◌==◌,
  if◌then◌else◌, arith, inl, inr, Bool-cases, Above, AtLeast, IsStrict, IsSorted, not-elem-AtLeast,
  IsSorted-of_IsStrict,
}
use setrixdb.Addb.SetOps.{intersect_loop, intersect_sorted, intersect_fold, intersect_many}

-- The merge without its accumulator.
common : List ℕ → List ℕ → List ℕ
common [] b = []
common (x ∷ a) [] = []
common (x ∷ a) (y ∷ b) =
    let next_a = common a (y ∷ b) in
    let next_b = common (x ∷ a) b in
    let both = x ∷ common a b in if ltb x y then next_a else (if ltb y x then next_b else both)

intersect_loop-common : (a b out : List ℕ) → intersect_loop a b out ≡ out ++ common a b
unfolding intersect_loop common
intersect_loop-common [] b out = sym (append-nil out)
intersect_loop-common (x ∷ a) [] out = sym (append-nil out)
intersect_loop-common (x ∷ a) (y ∷ b) out = ground (
  arith,
  intersect_loop-common a (y ∷ b) out,
  intersect_loop-common (x ∷ a) b out,
  intersect_loop-common a b (out ++ x ∷ []),
  append_assoc out (x ∷ []) (common a b),
)

elem-common :
    (q : ℕ) (a b : List ℕ) → IsSorted a → IsSorted b → elem q (common a b) ≡ (elem q a && elem q b)
unfolding common
elem-common q [] b sa sb = refl
elem-common q (x ∷ a) [] sa sb = ground arith
elem-common q (x ∷ a) (y ∷ b) sa sb = ground (
  arith,
  elem-common q a (y ∷ b) sa.1 sb,
  elem-common q (x ∷ a) b sa sb.1,
  elem-common q a b sa.1 sb.1,
  not-elem-AtLeast q x a sa.0,
  not-elem-AtLeast q y b sb.0,
)

AtLeast-common : (n : ℕ) (a b : List ℕ) → AtLeast n a → AtLeast n (common a b)
unfolding common
AtLeast-common n [] b h = tt
AtLeast-common n (x ∷ a) [] h = tt
AtLeast-common n (x ∷ a) (y ∷ b) h =
    ground (
      arith,
      AtLeast-common n a (y ∷ b) h.1,
      AtLeast-common n (x ∷ a) b h,
      AtLeast-common n a b h.1,
    )

Above-common : (n : ℕ) (a b : List ℕ) → Above n a → Above n (common a b)
unfolding common
Above-common n [] b h = tt
Above-common n (x ∷ a) [] h = tt
Above-common n (x ∷ a) (y ∷ b) h =
    ground (arith, Above-common n a (y ∷ b) h.1, Above-common n (x ∷ a) b h, Above-common n a b h.1)

common-IsStrict : (a b : List ℕ) → IsStrict a → IsStrict (common a b)
unfolding common
common-IsStrict [] b s = tt
common-IsStrict (x ∷ a) [] s = tt
common-IsStrict (x ∷ a) (y ∷ b) s = ground (
  arith,
  common-IsStrict a (y ∷ b) s.1,
  common-IsStrict (x ∷ a) b s,
  common-IsStrict a b s.1,
  Above-common x a b s.0,
)

common-IsSorted : (a b : List ℕ) → IsSorted a → IsSorted (common a b)
unfolding common
common-IsSorted [] b s = tt
common-IsSorted (x ∷ a) [] s = tt
common-IsSorted (x ∷ a) (y ∷ b) s = ground (
  arith,
  common-IsSorted a (y ∷ b) s.1,
  common-IsSorted (x ∷ a) b s,
  common-IsSorted a b s.1,
  AtLeast-common x a b s.0,
)

intersect_sorted-common : (a b : List ℕ) → intersect_sorted a b ≡ common a b
unfolding intersect_sorted
intersect_sorted-common a b = intersect_loop-common a b []

-- On ascending slices the merge returns exactly the members of both.
pub elem-intersect_sorted :
    (q : ℕ) (a b : List ℕ)
    → IsSorted a
    → IsSorted b
    → elem q (intersect_sorted a b) ≡ (elem q a && elem q b)
elem-intersect_sorted q a b sa sb = rw (intersect_sorted-common a b) (elem-common q a b sa sb)

pub intersect_sorted-IsSorted : (a b : List ℕ) → IsSorted a → IsSorted (intersect_sorted a b)
intersect_sorted-IsSorted a b s = rw (intersect_sorted-common a b) (common-IsSorted a b s)

pub intersect_sorted-IsStrict : (a b : List ℕ) → IsStrict a → IsStrict (intersect_sorted a b)
intersect_sorted-IsStrict a b s = rw (intersect_sorted-common a b) (common-IsStrict a b s)

-- Whether each of the sets has the member.
abbrev pub in_all : ℕ → List (List ℕ) → Bool
in_all q [] = true
in_all q (s ∷ sets) = elem q s && in_all q sets

abbrev pub AllSorted : List (List ℕ) → Type 0
AllSorted [] = Unit
AllSorted (s ∷ sets) = IsSorted s × AllSorted sets

abbrev pub AllStrict : List (List ℕ) → Type 0
AllStrict [] = Unit
AllStrict (s ∷ sets) = IsStrict s × AllStrict sets

pub AllSorted-of_AllStrict : (sets : List (List ℕ)) → AllStrict sets → AllSorted sets
AllSorted-of_AllStrict [] h = tt
AllSorted-of_AllStrict (s ∷ sets) h = (IsSorted-of_IsStrict s h.0, AllSorted-of_AllStrict sets h.1)

elem_of_empty : (q : ℕ) (xs : List ℕ) → length xs ≡ 0 → elem q xs ≡ false
elem_of_empty q [] h = refl
elem_of_empty q (x ∷ xs) h = absurd (omega arith)

elem-intersect_fold :
    (q : ℕ) (acc : List ℕ) (sets : List (List ℕ))
    → IsSorted acc
    → AllSorted sets
    → elem q (intersect_fold acc sets) ≡ (elem q acc && in_all q sets)
unfolding intersect_fold
elem-intersect_fold q acc [] sa ss = ground arith
elem-intersect_fold q acc (s ∷ sets) sa ss = ground (
  arith,
  elem-intersect_sorted q acc s sa ss.0,
  elem_of_empty q (intersect_sorted acc s),
  elem-intersect_fold q (intersect_sorted acc s) sets (intersect_sorted-IsSorted acc s sa) ss.1,
)

intersect_fold-IsStrict :
    (acc : List ℕ) (sets : List (List ℕ)) → IsStrict acc → IsStrict (intersect_fold acc sets)
unfolding intersect_fold
intersect_fold-IsStrict acc [] s = s
intersect_fold-IsStrict acc (t ∷ sets) s =
    elim (Bool-cases (length (intersect_sorted acc t) == 0)) [
      | inl e ↦ rw e tt
      | inr e ↦ rw e (
          intersect_fold-IsStrict (intersect_sorted acc t) sets (intersect_sorted-IsStrict acc t s))
    ]

-- Of one or more ascending slices, the fold returns exactly the members of all, its early return
-- included.
pub elem-intersect_many :
    (q : ℕ) (acc : List ℕ) (sets : List (List ℕ))
    → AllSorted (acc ∷ sets)
    → elem q (intersect_many (acc ∷ sets)) ≡ in_all q (acc ∷ sets)
unfolding intersect_many
elem-intersect_many q acc sets s = elem-intersect_fold q acc sets s.0 s.1

-- Of strictly ascending slices, the fold of the merge is strictly ascending.
pub intersect_many-IsStrict :
    (sets : List (List ℕ)) → AllStrict sets → IsStrict (intersect_many sets)
unfolding intersect_many
intersect_many-IsStrict [] s = tt
intersect_many-IsStrict (acc ∷ sets) s = intersect_fold-IsStrict acc sets s.0
