-- ===== src/Command/Bench.antt =====
-- What `bench` counts.
use setrixdb.Base.{
  length, elem, IsStrict, select, unique, elem-select, elem-unique, select-IsUnique,
  unique-IsUnique, length_of_same_elems, IsUnique-of_IsStrict, ℕ, ◌≡◌, refl, sym, ◌∙◌, List, [],
  ◌∷◌, arith,
}
use setrixdb.Addb.SetOps.{intersect_many}
use setrixdb.Addb.SetOps.Merge.{
  AllSorted-of_AllStrict, elem-intersect_many, intersect_many-IsStrict,
}
use setrixdb.IdSet.{new_set}
use setrixdb.IdSet.Laws.{member-new_set, sorted_ids_lem}
use setrixdb.Command.Sets.{normalize}
use setrixdb.Command.Units.{normalize-sorted_ids}
use setrixdb.Command.Terms.{cmd_bench}

-- `normalize` leaves the IDs in strictly ascending order, and the same ones.
pub normalize_lem :
    (ids : List ℕ) → IsStrict (normalize ids) × ((q : ℕ) → elem q (normalize ids) ≡ elem q ids)
normalize_lem ids =
    let (valid, members) = member-new_set ids in
    let (strict, same, _, _) = sorted_ids_lem (new_set ids) valid in
    rw (normalize-sorted_ids ids) (strict, λ q. same q ∙ members q)

-- `bench` counts the different IDs of either slice, and those that are in both.
pub cmd_bench-unique :
    (a b : List ℕ)
    → cmd_bench a b
      ≡ (length (unique a), length (unique b), length (select (λ q. elem q b) (unique a)))
unfolding cmd_bench
cmd_bench-unique a b =
    let (strict, same) = normalize_lem a in
    let (strict', same') = normalize_lem b in
    let both = intersect_many-IsStrict (normalize a ∷ normalize b ∷ []) (strict, (strict', tt)) in
    let sorted = AllSorted-of_AllStrict (normalize a ∷ normalize b ∷ []) (strict, (strict', tt)) in
    let common : (q : ℕ)
        → elem q (intersect_many (normalize a ∷ normalize b ∷ []))
          ≡ elem q (select (λ q. elem q b) (unique a)) =
      λ q.
        elem-intersect_many q (normalize a) (normalize b ∷ []) sorted
        ∙ ground (
          arith,
          same q,
          same' q,
          elem-select (λ (p : ℕ). elem p b) q (unique a),
          elem-unique q a,
        ) in
    let count_a =
      length_of_same_elems (normalize a) (unique a) (IsUnique-of_IsStrict (normalize a) strict)
        (unique-IsUnique a) (λ q. same q ∙ sym (elem-unique q a)) in
    let count_b =
      length_of_same_elems (normalize b) (unique b) (IsUnique-of_IsStrict (normalize b) strict')
        (unique-IsUnique b) (λ q. same' q ∙ sym (elem-unique q b)) in
    let count =
      length_of_same_elems (intersect_many (normalize a ∷ normalize b ∷ []))
        (select (λ q. elem q b) (unique a))
        (IsUnique-of_IsStrict (intersect_many (normalize a ∷ normalize b ∷ [])) both)
        (select-IsUnique (λ q. elem q b) (unique a) (unique-IsUnique a)) common in
    rw (count_a, count_b, count) refl
