-- ===== src/Addb/Sparse.antt =====
-- internal/addb/sparseset.go: the sorted slice of IDs. Slices are lists; an assignment to an element
-- is a write in the list, and each index below stays in range.
pub mod Compact
pub mod Laws
use setrixdb.Base.{
  ℕ, zero, suc, ◌+◌, ◌-◌, ◌*◌, Bool, ◌&&◌, List, [], ◌∷◌, ◌++◌, length, get_or, set, take, ltb, leb,
  ◌==◌, if◌then◌else◌, u64,
}
use setrixdb.Std.Sort.{sort_slice}
use setrixdb.Std.Search.{sort_search}

pub record SparseSet : Type 0 where
  pub ids : List ℕ

-- `for r := …; r < len(s.ids); r++ { if s.ids[r] != s.ids[w-1] { s.ids[w] = s.ids[r]; w++ } }`
-- with so many rounds left, then `s.ids[:w]`.
unfoldable pub compact_loop : ℕ → ℕ → ℕ → List ℕ → List ℕ
compact_loop zero r w ids = take w ids
compact_loop (suc left) r w ids =
    let same = compact_loop left (r + 1) w ids in
    let moved = compact_loop left (r + 1) (w + 1) (set ids w (get_or ids r 0)) in
    if get_or ids r 0 == get_or ids (w - 1) 0 then same else moved

unfoldable pub finalize : SparseSet → SparseSet
unfolding compact_loop
finalize s =
    let ids = sort_slice s.ids in
    if ltb (length ids) 2
    then record { ids = ids }
    else record { ids = compact_loop (length ids - 1) 1 1 ids }

pub add : SparseSet → ℕ → SparseSet
add s id = record { ids = s.ids ++ id ∷ [] }

unfoldable pub new_sparse_set : List ℕ → SparseSet
unfolding finalize
new_sparse_set ids = finalize (record { ids = ids })

pub len : SparseSet → ℕ
len s = length s.ids

pub has : SparseSet → ℕ → Bool
has s id =
    let i = sort_search (length s.ids) (λ i. leb id (get_or s.ids i 0)) in
    ltb i (length s.ids) && get_or s.ids i 0 == id

-- The two-pointer merge: the lists are `s.ids[i:]` and `o.ids[j:]`. The counter is the bit pattern
-- of an `int64`.
and_count_loop : List ℕ → List ℕ → ℕ → ℕ
and_count_loop [] o c = c
and_count_loop (a ∷ s) [] c = c
and_count_loop (a ∷ s) (b ∷ o) c =
    let both = and_count_loop s o (u64 (c + 1)) in
    let next_s = and_count_loop s (b ∷ o) c in
    let next_o = and_count_loop (a ∷ s) o c in
    if a == b then both else (if ltb a b then next_s else next_o)

unfoldable pub and_count : SparseSet → SparseSet → ℕ
unfolding and_count_loop
and_count s o = and_count_loop s.ids o.ids 0

unfoldable pub mem_bytes : SparseSet → ℕ
mem_bytes s = length s.ids * 8
