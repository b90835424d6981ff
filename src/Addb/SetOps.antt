-- ===== src/Addb/SetOps.antt =====
-- internal/addb/setops.go: binary search, batch search and merge intersection on sorted shards.
pub mod Batch
pub mod Merge
use setrixdb.Base.{
  ℕ, Bool, ◌&&◌, List, [], ◌∷◌, ◌++◌, length, get_or, elem, ltb, leb, ◌==◌, if◌then◌else◌,
}
use setrixdb.Std.Sort.{sort_slice}
use setrixdb.Std.Search.{sort_search}

pub sort_shard : List ℕ → List ℕ
sort_shard shard = sort_slice shard

pub contains_sorted : List ℕ → ℕ → Bool
contains_sorted sorted q =
    let i = sort_search (length sorted) (λ i. leb q (get_or sorted i 0)) in
    ltb i (length sorted) && get_or sorted i 0 == q

-- The loop over the batch, with the set `seen` and the slice `out`.
search_batch_loop : List ℕ → List ℕ → List ℕ → List ℕ → List ℕ
search_batch_loop sorted [] seen out = out
search_batch_loop sorted (q ∷ batch) seen out =
    let skipped = search_batch_loop sorted batch seen out in
    let looked_up =
      search_batch_loop sorted batch (q ∷ seen)
        (if contains_sorted sorted q then out ++ q ∷ [] else out) in
    if elem q seen then skipped else looked_up

unfoldable pub search_sorted_batch : List ℕ → List ℕ → List ℕ
unfolding search_batch_loop contains_sorted
search_sorted_batch sorted batch = search_batch_loop sorted batch [] []

-- The merge: the lists are `a[i:]` and `b[j:]`, since an index only moves forward.
intersect_loop : List ℕ → List ℕ → List ℕ → List ℕ
intersect_loop [] b out = out
intersect_loop (x ∷ a) [] out = out
intersect_loop (x ∷ a) (y ∷ b) out =
    let next_a = intersect_loop a (y ∷ b) out in
    let next_b = intersect_loop (x ∷ a) b out in
    let both = intersect_loop a b (out ++ x ∷ []) in
    if ltb x y then next_a else (if ltb y x then next_b else both)

unfoldable pub intersect_sorted : List ℕ → List ℕ → List ℕ
unfolding intersect_loop
intersect_sorted a b = intersect_loop a b []

-- `for _, s := range sets[1:] { acc = IntersectSorted(acc, s); if len(acc) == 0 { return nil } }`
intersect_fold : List ℕ → List (List ℕ) → List ℕ
intersect_fold acc [] = acc
intersect_fold acc (s ∷ sets) =
    let acc' = intersect_sorted acc s in
    let rest = intersect_fold acc' sets in if length acc' == 0 then [] else rest

unfoldable pub intersect_many : List (List ℕ) → List ℕ
unfolding intersect_fold
intersect_many [] = []
intersect_many (acc ∷ sets) = intersect_fold acc sets
