-- ===== src/Examples/Sets.antt =====
-- setrixdb.go's sets, at small inputs.
use setrixdb.Base.{ℕ, ◌≡◌, true, false, List, [], ◌∷◌, arith}
use setrixdb.IdSet.{IdSet, sorted_ids, intersect, union}
use setrixdb.IdSet.Laws.{IsValid, member, sorted_ids_ext}
use setrixdb.IdSet.Algebra.{
  AllValid, SameMembers, member_of_all, member_of_any, member-intersect, member-union,
}

-- Two sets as `Add` leaves them, and one already finalized.
abbrev odd : IdSet
odd = record { ids = 7 ∷ 3 ∷ 7 ∷ 5 ∷ []; sorted = false }

abbrev small : IdSet
small = record { ids = 5 ∷ 3 ∷ 1 ∷ []; sorted = false }

abbrev kept : IdSet
kept = record { ids = 3 ∷ 4 ∷ 5 ∷ []; sorted = true }

odd-IsValid : IsValid odd
odd-IsValid = λ e. absurd (cc)

small-IsValid : IsValid small
small-IsValid = λ e. absurd (cc)

kept-IsValid : IsValid kept
kept-IsValid = λ e. ground arith

-- The same members in another order and with a repetition.
abbrev jumbled : IdSet
jumbled = record { ids = 5 ∷ 4 ∷ 3 ∷ 5 ∷ []; sorted = false }

kept-jumbled : (q : ℕ) → member kept q ≡ member jumbled q
kept-jumbled q = ground arith

sorted_ids_ext_example : (sorted_ids kept).0 ≡ (sorted_ids jumbled).0
sorted_ids_ext_example = sorted_ids_ext kept jumbled kept-IsValid (λ e. absurd (cc)) kept-jumbled

abbrev three : List IdSet
three = odd ∷ small ∷ kept ∷ []

three-AllValid : AllValid three
three-AllValid = (odd-IsValid, (small-IsValid, (kept-IsValid, tt)))

member-intersect_example :
    IsValid (intersect three).0
    × ((q : ℕ) → member (intersect three).0 q ≡ member_of_all q three)
    × AllValid (intersect three).1
    × SameMembers (intersect three).1 three
member-intersect_example = member-intersect odd (small ∷ kept ∷ []) three-AllValid

member-union_example :
    IsValid (union three).0
    × ((q : ℕ) → member (union three).0 q ≡ member_of_any q three)
    × AllValid (union three).1
    × SameMembers (union three).1 three
member-union_example = member-union three three-AllValid
