-- ===== src/IdSet/Laws.antt =====
-- The sets as the caller sees them: a predicate on IDs, which finalizing keeps.
use native.Mathlib.Numerals.{add-one}
use setrixdb.Base.{
  ℕ, zero, suc, ◌+◌, ◌-◌, ◌≡◌, refl, sym, ◌∙◌, Bool, true, false, ◌||◌, List, [], ◌∷◌, length,
  get_or, set, ◌==◌, if◌then◌else◌, arith, inl, inr, Bool-cases, elem, IsStrict, IsSorted,
  IsSorted-of_IsStrict, elem-append, suc-==-zero, unique, elem-unique, unique-IsUnique,
  IsUnique-of_IsStrict, length_of_same_elems, IsStrict-ext,
}
use setrixdb.Std.Sort.{sort_slice, sort_slice-IsSorted, elem-sort_slice}
use setrixdb.Addb.SetOps.Batch.{contains_sorted-elem}
use setrixdb.Addb.Sparse.{compact_loop}
use setrixdb.Addb.Sparse.Compact.{dedup, elem-dedup, dedup-IsStrict, compact_loop_lem}
use setrixdb.IdSet.{IdSet, add, new_set, finalize_loop, finalize, len, has, sorted_ids}

-- A set that says it is sorted has strictly ascending IDs.
abbrev pub IsValid : IdSet → Type 0
IsValid s = s.sorted ≡ true → IsStrict s.ids

-- Membership, as the specification has it.
abbrev pub member : IdSet → ℕ → Bool
member s q = elem q s.ids

compact_loop-suc :
    (left r w : ℕ) (ids : List ℕ)
    → compact_loop (suc left) r w ids ≡ (
        if get_or ids r 0 == get_or ids (w - 1) 0
        then compact_loop left (r + 1) w ids
        else compact_loop left (r + 1) (w + 1) (set ids w (get_or ids r 0)))
unfolding compact_loop
compact_loop-suc left r w ids = refl

-- Once an element is kept, the loop is the sparse set's.
finalize_loop-compact_loop :
    (left i w : ℕ) (ids : List ℕ)
    → finalize_loop left i (suc w) ids ≡ compact_loop left i (suc w) ids
unfolding finalize_loop
finalize_loop-compact_loop zero i w ids = unfold compact_loop in refl
finalize_loop-compact_loop (suc left) i w ids = ground (
  arith,
  compact_loop-suc left i (suc w) ids,
  finalize_loop-compact_loop left (i + 1) w ids,
  finalize_loop-compact_loop left (i + 1) (suc w) (set ids (suc w) (get_or ids i 0)),
  add-one (suc w),
)

finalize_loop-dedup :
    (x : ℕ) (xs : List ℕ) → finalize_loop (suc (length xs)) 0 0 (x ∷ xs) ≡ x ∷ dedup x xs
unfolding finalize_loop
finalize_loop-dedup x xs =
    finalize_loop-compact_loop (length xs) 1 0 (x ∷ xs) ∙ compact_loop_lem x xs

finalize_sorted :
    (ids : List ℕ)
    → IsSorted ids
    → IsStrict (finalize_loop (length ids) 0 0 ids)
      × ((q : ℕ) → elem q (finalize_loop (length ids) 0 0 ids) ≡ elem q ids)
finalize_sorted [] s = unfold finalize_loop in (tt, λ q. refl)
finalize_sorted (x ∷ xs) s =
    rw (finalize_loop-dedup x xs) (dedup-IsStrict x xs s.0 s.1, λ q. elem-dedup q x xs)

-- Finalizing a valid set leaves it sorted and strictly ascending, and keeps exactly the members.
pub finalize_lem :
    (s : IdSet)
    → IsValid s
    → ((finalize s).sorted ≡ true)
      × IsStrict (finalize s).ids
      × ((q : ℕ) → member (finalize s) q ≡ member s q)
unfolding finalize
finalize_lem s v = elim (Bool-cases s.sorted) [
  | inl e ↦ rw e (refl, v e, λ q. refl)
  | inr e ↦
      let (strict, same) = finalize_sorted (sort_slice s.ids) (sort_slice-IsSorted s.ids) in
      rw e (refl, strict, λ q. same q ∙ elem-sort_slice q s.ids)
]

pub finalize-IsValid : (s : IdSet) → IsValid s → IsValid (finalize s)
finalize-IsValid s v e = (finalize_lem s v).1

-- Adding IDs to a valid set gives a valid set with exactly those members more.
pub member-add :
    (s : IdSet) (ids : List ℕ)
    → IsValid s
    → IsValid (add s ids) × ((q : ℕ) → member (add s ids) q ≡ (member s q || elem q ids))
unfolding add
member-add s [] v = (v, λ q. ground arith)
member-add s (x ∷ xs) v =
    rw (suc-==-zero (length xs)) (λ e. absurd (cc), λ q. elem-append q s.ids (x ∷ xs))

-- A new set is valid and has exactly the members that it is made from.
pub member-new_set :
    (ids : List ℕ) → IsValid (new_set ids) × ((q : ℕ) → member (new_set ids) q ≡ elem q ids)
unfolding new_set
member-new_set ids = member-add (record { ids = []; sorted = false }) ids (λ e. tt)

-- `Has` on a valid set answers membership exactly, and leaves a valid set with the same members.
pub has-member :
    (s : IdSet) (id : ℕ)
    → IsValid s
    → ((has s id).0 ≡ member s id)
      × IsValid (has s id).1
      × ((q : ℕ) → member (has s id).1 q ≡ member s q)
unfolding has
has-member s id v =
    let (_, strict, same) = finalize_lem s v in
    (
      contains_sorted-elem (finalize s).ids id (IsSorted-of_IsStrict (finalize s).ids strict)
          ∙ same id,
      finalize-IsValid s v,
      same,
    )

-- `Len` of a valid set is the number of its members, repetitions not counted.
pub len-unique : (s : IdSet) → IsValid s → (len s).0 ≡ length (unique s.ids)
unfolding len
len-unique s v =
    let (_, strict, same) = finalize_lem s v in
    length_of_same_elems (finalize s).ids (unique s.ids)
      (IsUnique-of_IsStrict (finalize s).ids strict) (unique-IsUnique s.ids)
      (λ q. same q ∙ sym (elem-unique q s.ids))

-- `IDs` of a valid set is strictly ascending and has exactly the members.
pub sorted_ids_lem :
    (s : IdSet)
    → IsValid s
    → IsStrict (sorted_ids s).0
      × ((q : ℕ) → elem q (sorted_ids s).0 ≡ member s q)
      × IsValid (sorted_ids s).1
      × ((q : ℕ) → member (sorted_ids s).1 q ≡ member s q)
unfolding sorted_ids
sorted_ids_lem s v =
    let (_, strict, same) = finalize_lem s v in (strict, same, finalize-IsValid s v, same)

-- Valid sets with the same members have the same `IDs`, however they were built.
pub sorted_ids_ext :
    (s t : IdSet)
    → IsValid s
    → IsValid t
    → ((q : ℕ) → member s q ≡ member t q)
    → (sorted_ids s).0 ≡ (sorted_ids t).0
sorted_ids_ext s t v w h =
    let (strict, same, _, _) = sorted_ids_lem s v in
    let (strict', same', _, _) = sorted_ids_lem t w in
    IsStrict-ext (sorted_ids s).0 (sorted_ids t).0 strict strict'
      (λ q. same q ∙ h q ∙ sym (same' q))
