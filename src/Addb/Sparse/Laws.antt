-- ===== src/Addb/Sparse/Laws.antt =====
-- What a finalized sparse set promises: ascending IDs without repetitions, exact membership, and
-- the size of an intersection.
use setrixdb.Base.{
  ℕ, suc, ◌+◌, ◌-◌, ◌<◌, ◌≡◌, refl, sym, ◌∙◌, false, List, [], ◌∷◌, length, ltb, arith, inl, inr,
  elem, select, IsStrict, IsSorted, IsSorted-of_IsStrict, select-drop_head, not-elem-Above,
  select_none, trichotomy, Above-trans, u64, u64_mod,
}
use setrixdb.Std.Sort.{sort_slice, sort_slice-IsSorted, elem-sort_slice}
use setrixdb.Std.Search.{sort_search_sorted}
use setrixdb.Addb.Sparse.{SparseSet, finalize, new_sparse_set, has, and_count_loop, and_count}
use setrixdb.Addb.Sparse.Compact.{dedup, dedup-empty, elem-dedup, dedup-IsStrict, compact_loop_lem}

finalize-empty : (s : SparseSet) → sort_slice s.ids ≡ [] → (finalize s).ids ≡ []
unfolding finalize
finalize-empty s e = rw e

finalize-dedup :
    (s : SparseSet) (x : ℕ) (xs : List ℕ)
    → sort_slice s.ids ≡ x ∷ xs
    → (finalize s).ids ≡ x ∷ dedup x xs
unfolding finalize
finalize-dedup s x [] e = rw (e, dedup-empty x)
finalize-dedup s x (y ∷ xs) e =
    let long : ltb (suc (suc (length xs))) 2 ≡ false = ground arith in
    let rounds : suc (suc (length xs)) - 1 ≡ suc (length xs) = omega arith in
    rw (e, long, rounds) (compact_loop_lem x (y ∷ xs))

finalize_sorted :
    (s : SparseSet) (ids : List ℕ)
    → sort_slice s.ids ≡ ids
    → IsSorted ids
    → IsStrict (finalize s).ids × ((q : ℕ) → elem q (finalize s).ids ≡ elem q ids)
finalize_sorted s [] e sorted = rw (finalize-empty s e) (tt, λ q. refl)
finalize_sorted s (x ∷ xs) e sorted =
    rw (finalize-dedup s x xs e) (dedup-IsStrict x xs sorted.0 sorted.1, λ q. elem-dedup q x xs)

-- Finalizing leaves the IDs strictly ascending and keeps exactly the members.
pub finalize-elem :
    (s : SparseSet) → IsStrict (finalize s).ids × ((q : ℕ) → elem q (finalize s).ids ≡ elem q s.ids)
finalize-elem s =
    let (strict, same) = finalize_sorted s (sort_slice s.ids) refl (sort_slice-IsSorted s.ids) in
    (strict, λ q. same q ∙ elem-sort_slice q s.ids)

-- On a strictly ascending set, `Has` finds an ID exactly when it is a member.
pub has-elem : (s : SparseSet) (id : ℕ) → IsStrict s.ids → has s id ≡ elem id s.ids
unfolding has
has-elem s id strict = sym (sort_search_sorted s.ids id (IsSorted-of_IsStrict s.ids strict))

-- A set built from a list in any order has strictly ascending IDs, and answers membership exactly.
pub has-new_sparse_set :
    (ids : List ℕ)
    → IsStrict (new_sparse_set ids).ids × ((q : ℕ) → has (new_sparse_set ids) q ≡ elem q ids)
unfolding new_sparse_set
has-new_sparse_set ids =
    let (strict, same) = finalize-elem (record { ids = ids }) in
    (strict, λ q. has-elem (finalize (record { ids = ids })) q strict ∙ same q)

and_count_loop_lem :
    (s o : List ℕ) (c : ℕ)
    → IsStrict s
    → IsStrict o
    → c < u64_mod
    → and_count_loop s o c ≡ u64 (c + length (select (λ q. elem q o) s))
unfolding and_count_loop
and_count_loop_lem [] o c ss so h = omega arith
and_count_loop_lem (a ∷ s) [] c ss so h = rw (select_none s) (omega arith)
and_count_loop_lem (a ∷ s) (b ∷ o) c ss so h = elim (trichotomy a b) [
  | inl less ↦ ground (arith, and_count_loop_lem s (b ∷ o) c ss.1 so h, not-elem-Above a b o so.0)
  | inr (inl same) ↦ ground (
    arith,
    and_count_loop_lem s o (u64 (c + 1)) ss.1 so.1 (omega arith),
    select-drop_head b o s,
    same,
  )
  | inr (inr more) ↦ ground (
    arith,
    and_count_loop_lem (a ∷ s) o c ss so.1 h,
    select-drop_head b o s (Above-trans b a s (omega arith) ss.0),
  )
]

-- Of two strictly ascending sets, `AndCount` is the number of members of the first that the second
-- has, as a 64-bit pattern.
pub and_count-length :
    (s o : SparseSet)
    → IsStrict s.ids
    → IsStrict o.ids
    → and_count s o ≡ u64 (length (select (λ q. elem q o.ids) s.ids))
unfolding and_count
and_count-length s o ss so = and_count_loop_lem s.ids o.ids 0 ss so (omega arith) ∙ omega arith
