-- ===== src/IdSet/Algebra.antt =====
-- `Intersect`, `Union` and `Filter` are the operations on the members.
use setrixdb.Base.{
  ℕ, ◌≡◌, refl, sym, ◌∙◌, ap₂, Bool, true, false, ◌||◌, ◌&&◌, List, [], ◌∷◌, ◌++◌, arith, elem,
  elem-append, select, IsStrict-ext, select-IsStrict, elem-select,
}
use setrixdb.Addb.SetOps.Merge.{
  in_all, AllStrict, AllSorted-of_AllStrict, elem-intersect_many, intersect_many-IsStrict,
}
use setrixdb.IdSet.{IdSet, raw_ids, append_ids, intersect, union, filter, sorted_ids}
use setrixdb.IdSet.Laws.{
  IsValid, member, sorted_ids_lem, sorted_ids_ext, finalize_lem, finalize-IsValid,
}

abbrev pub AllValid : List IdSet → Type 0
AllValid [] = Unit
AllValid (s ∷ sets) = IsValid s × AllValid sets

-- Whether each, or some, of the sets has the member.
abbrev pub member_of_all : ℕ → List IdSet → Bool
member_of_all q [] = true
member_of_all q (s ∷ sets) = member s q && member_of_all q sets

abbrev pub member_of_any : ℕ → List IdSet → Bool
member_of_any q [] = false
member_of_any q (s ∷ sets) = member s q || member_of_any q sets

-- The sets pairwise have the same members.
abbrev pub SameMembers : List IdSet → List IdSet → Type 0
SameMembers [] [] = Unit
SameMembers [] (t ∷ ts) = ⊥
SameMembers (s ∷ ss) [] = ⊥
SameMembers (s ∷ ss) (t ∷ ts) = ((q : ℕ) → member s q ≡ member t q) × SameMembers ss ts

raw_ids_lem :
    (sets : List IdSet)
    → AllValid sets
    → AllStrict (raw_ids sets).0
      × ((q : ℕ) → in_all q (raw_ids sets).0 ≡ member_of_all q sets)
      × AllValid (raw_ids sets).1
      × SameMembers (raw_ids sets).1 sets
unfolding raw_ids
raw_ids_lem [] v = (tt, λ q. refl, tt, tt)
raw_ids_lem (s ∷ sets) v =
    let (strict, same, valid, kept) = sorted_ids_lem s v.0 in
    let (stricts, sames, valids, kepts) = raw_ids_lem sets v.1 in
    ((strict, stricts), λ q. ap₂ ◌&&◌ (same q) (sames q), (valid, valids), (kept, kepts))

-- Of one or more valid sets, `Intersect` returns a valid set with exactly the common members, and
-- leaves its arguments valid with the members they had.
pub member-intersect :
    (s : IdSet) (sets : List IdSet)
    → AllValid (s ∷ sets)
    → IsValid (intersect (s ∷ sets)).0
      × ((q : ℕ) → member (intersect (s ∷ sets)).0 q ≡ member_of_all q (s ∷ sets))
      × AllValid (intersect (s ∷ sets)).1
      × SameMembers (intersect (s ∷ sets)).1 (s ∷ sets)
unfolding intersect
member-intersect s sets v =
    let (stricts, sames, valids, kepts) = raw_ids_lem (s ∷ sets) v in
    (
      λ e. intersect_many-IsStrict (raw_ids (s ∷ sets)).0 stricts,
      λ q.
          elem-intersect_many q (sorted_ids s).0 (raw_ids sets).0
            (AllSorted-of_AllStrict (raw_ids (s ∷ sets)).0 stricts)
          ∙ sames q,
      valids,
      kepts,
    )

append_ids_lem :
    (out : List ℕ) (sets : List IdSet)
    → AllValid sets
    → ((q : ℕ) → elem q (append_ids out sets).0 ≡ (elem q out || member_of_any q sets))
      × AllValid (append_ids out sets).1
      × SameMembers (append_ids out sets).1 sets
unfolding append_ids
append_ids_lem out [] v = (λ q. ground arith, tt, tt)
append_ids_lem out (s ∷ sets) v =
    let (strict, same, valid, kept) = sorted_ids_lem s v.0 in
    let (sames, valids, kepts) = append_ids_lem (out ++ (sorted_ids s).0) sets v.1 in
    (
      λ q. ground (arith, sames q, elem-append q out (sorted_ids s).0, same q),
      (valid, valids),
      (kept, kepts),
    )

-- `Union` of valid sets returns a valid set with exactly the members of any of them, and leaves its
-- arguments valid with the members they had.
pub member-union :
    (sets : List IdSet)
    → AllValid sets
    → IsValid (union sets).0
      × ((q : ℕ) → member (union sets).0 q ≡ member_of_any q sets)
      × AllValid (union sets).1
      × SameMembers (union sets).1 sets
unfolding union
member-union sets v =
    let (sames, valids, kepts) = append_ids_lem [] sets v in
    let out : IdSet = record { ids = (append_ids [] sets).0; sorted = false } in
    let fresh : IsValid out = λ e. absurd (cc) in
    let (_, _, same) = finalize_lem out fresh in
    (finalize-IsValid out fresh, λ q. same q ∙ sames q, valids, kepts)

-- `Filter` of valid sets keeps, of the sorted IDs of the first, those that the mask has.
pub filter-select :
    (base mask : IdSet)
    → IsValid base
    → IsValid mask
    → (filter base mask).0.ids ≡ select (λ q. member mask q) (sorted_ids base).0
unfolding filter intersect
filter-select base mask v v' =
    let (strict, same, _, _) = sorted_ids_lem base v in
    let (valid, members, _, _) = member-intersect base (mask ∷ []) (v, (v', tt)) in
    IsStrict-ext (intersect (base ∷ mask ∷ [])).0.ids
      (select (λ q. member mask q) (sorted_ids base).0) (valid refl)
      (select-IsStrict (λ q. member mask q) (sorted_ids base).0 strict)
      (λ q.
        members q ∙ ground (arith, same q, elem-select (λ p. member mask p) q (sorted_ids base).0))

-- The union of two valid sets has the same `IDs` in either order.
pub union_comm :
    (s t : IdSet)
    → IsValid s
    → IsValid t
    → (sorted_ids (union (s ∷ t ∷ [])).0).0 ≡ (sorted_ids (union (t ∷ s ∷ [])).0).0
union_comm s t v v' =
    let (valid, same, _, _) = member-union (s ∷ t ∷ []) (v, (v', tt)) in
    let (valid', same', _, _) = member-union (t ∷ s ∷ []) (v', (v, tt)) in
    sorted_ids_ext (union (s ∷ t ∷ [])).0 (union (t ∷ s ∷ [])).0 valid valid'
      (λ q. same q ∙ ground arith ∙ sym (same' q))
