-- ===== src/Addb/Ring/Invariant.antt =====
-- The cache of sorted positions, when there is one, is that of the points; `Route` gives the owner of
-- the next position clockwise.
use setrixdb.Base.{
  ℕ, zero, suc, ◌+◌, ◌*◌, bit_xor, ◌<◌, ◌≡◌, refl, sym, ◌∙◌, ap, true, false, inl, inr, Option,
  none, some, List, [], ◌∷◌, length, elem, ◌==◌, ==_refl, Bool-cases, arith, u64, u64_mod, Below,
  lt_of_elem, IsSorted,
}
use setrixdb.Std.Sort.{sort_slice, sort_slice-IsSorted, elem-sort_slice}
use setrixdb.Std.Endian.{put_le}
use setrixdb.Std.Fnv.{new64a, write64a}
use setrixdb.Addb.Ring.{
  Ring, Node, new_ring, hash_key, hash_key_node, has_node, put_point, delete_point, point_at,
  add_points, remove_points, add_node, remove_node, positions, ensured, ensure_sorted, clockwise,
  route,
}
use setrixdb.Addb.Ring.Route.{NoCloser, NoCloser-of_all, elem-clockwise, clockwise-closest}

abbrev IsCache : Option (List ℕ) → List ℕ → Type 0
IsCache none ps = Unit
IsCache (some sorted) ps = sorted ≡ sort_slice ps

pub record IsWellFormed (r : Ring) : Type 0 where
  pub words : Below u64_mod (positions r.points)
  pub cached : IsCache r.sorted (positions r.points)

write64a-lt : (bytes : List ℕ) (h : ℕ) → h < u64_mod → write64a h bytes < u64_mod
unfolding write64a
write64a-lt [] h small = small
write64a-lt (b ∷ bytes) h small =
    write64a-lt bytes (u64 (bit_xor h b * 1099511628211)) (omega arith)

hash_key_node-lt : (node : Node) (i : ℕ) → hash_key_node node i < u64_mod
unfolding hash_key_node
hash_key_node-lt node i =
    write64a-lt (put_le 4 i) (write64a new64a node) (write64a-lt node new64a (omega arith))

put_point-Below :
    (points : List (ℕ × Node)) (p : ℕ) (node : Node)
    → p < u64_mod
    → Below u64_mod (positions points)
    → Below u64_mod (positions (put_point points p node))
unfolding put_point positions
put_point-Below [] p node small below = (small, tt)
put_point-Below ((p', n) ∷ points) p node small below = elim (Bool-cases (p' == p)) [
  | inl e ↦ rw e (small, below.1)
  | inr e ↦ rw e (below.0, put_point-Below points p node small below.1)
]

delete_point-Below :
    (points : List (ℕ × Node)) (p : ℕ)
    → Below u64_mod (positions points)
    → Below u64_mod (positions (delete_point points p))
unfolding delete_point positions
delete_point-Below [] p below = tt
delete_point-Below ((p', n) ∷ points) p below = elim (Bool-cases (p' == p)) [
  | inl e ↦ rw e below.1
  | inr e ↦ rw e (below.0, delete_point-Below points p below.1)
]

add_points-Below :
    (left i : ℕ) (node : Node) (points : List (ℕ × Node))
    → Below u64_mod (positions points)
    → Below u64_mod (positions (add_points left i node points))
unfolding add_points
add_points-Below zero i node points below = below
add_points-Below (suc left) i node points below =
    add_points-Below left (i + 1) node (put_point points (hash_key_node node i) node)
      (put_point-Below points (hash_key_node node i) node (hash_key_node-lt node i) below)

remove_points-Below :
    (left i : ℕ) (node : Node) (points : List (ℕ × Node))
    → Below u64_mod (positions points)
    → Below u64_mod (positions (remove_points left i node points))
unfolding remove_points
remove_points-Below zero i node points below = below
remove_points-Below (suc left) i node points below =
    remove_points-Below left (i + 1) node (delete_point points (hash_key_node node i))
      (delete_point-Below points (hash_key_node node i) below)

pub new_ring-IsWellFormed : (replicas : ℕ) → IsWellFormed (new_ring replicas)
unfolding new_ring positions
new_ring-IsWellFormed replicas = record { words = tt; cached = tt }

pub add_node-IsWellFormed :
    (r : Ring) (node : Node) → IsWellFormed r → IsWellFormed (add_node r node)
unfolding add_node
add_node-IsWellFormed r node ok = elim (Bool-cases (has_node node r.nodes)) [
  | inl e ↦ rw e ok
  | inr e ↦
      rw e (record { words = add_points-Below r.replicas 0 node r.points ok.words; cached = tt })
]

pub remove_node-IsWellFormed :
    (r : Ring) (node : Node) → IsWellFormed r → IsWellFormed (remove_node r node)
unfolding remove_node
remove_node-IsWellFormed r node ok = elim (Bool-cases (has_node node r.nodes)) [
  | inl e ↦
      rw e (record { words = remove_points-Below r.replicas 0 node r.points ok.words; cached = tt })
  | inr e ↦ rw e ok
]

ensured-sort_slice :
    (r : Ring) (sorted : Option (List ℕ))
    → IsCache sorted (positions r.points)
    → ensured r sorted ≡ sort_slice (positions r.points)
unfolding ensured
ensured-sort_slice r none cached = refl
ensured-sort_slice r (some sorted) cached = cached

Below-of_all : (n : ℕ) (xs : List ℕ) → ((q : ℕ) → elem q xs ≡ true → q < n) → Below n xs
Below-of_all n [] h = tt
Below-of_all n (x ∷ xs) h =
    (h x (ground (arith, ==_refl x)), Below-of_all n xs (λ q e. h q (ground arith)))

length-positions : (points : List (ℕ × Node)) → length (positions points) ≡ length points
unfolding positions
length-positions [] = refl
length-positions ((p, n) ∷ points) = ap suc (length-positions points)

some_length : (xs ys : List ℕ) → ((q : ℕ) → elem q xs ≡ elem q ys) → 0 < length ys → 0 < length xs
some_length [] [] h p = p
some_length [] (y ∷ ys) h p = ground (arith, h y, ==_refl y)
some_length (x ∷ xs) ys h p = omega arith

route_filled :
    (r : Ring) (id : ℕ)
    → 0 < length r.points
    → route r id
      ≡ (some (point_at r.points (clockwise (ensured r r.sorted) (hash_key id))), ensure_sorted r)
unfolding route
route_filled r id filled = let e : length r.points == 0 ≡ false = ground arith in rw e refl

-- In a well-formed ring that is not empty, `Route` gives the owner of a position of the ring such that
-- no position comes before it, going clockwise from the hash of the ID; and leaves the ring well-formed,
-- with the same points.
pub route-NoCloser :
    (r : Ring) (id : ℕ)
    → IsWellFormed r
    → 0 < length r.points
    → (p : ℕ) × ((route r id).0 ≡ some (point_at r.points p))
      × (elem p (positions r.points) ≡ true)
      × NoCloser (hash_key id) p (positions r.points)
      × IsWellFormed (route r id).1
      × ((route r id).1.points ≡ r.points)
unfolding ensure_sorted hash_key
route-NoCloser r id ok filled =
    let ps = positions r.points in
    let xs = ensured r r.sorted in
    let same : xs ≡ sort_slice ps = ensured-sort_slice r r.sorted ok.cached in
    let members : (q : ℕ) → elem q xs ≡ elem q ps = λ q. rw same (elem-sort_slice q ps) in
    let ascending : IsSorted xs = rw same (sort_slice-IsSorted ps) in
    let some_position : 0 < length xs =
      some_length xs ps members (omega (arith, length-positions r.points)) in
    let words : Below u64_mod xs =
      Below-of_all u64_mod xs (λ q e. lt_of_elem q u64_mod ps ok.words (sym (members q) ∙ e)) in
    let word : hash_key id < u64_mod = write64a-lt (put_le 8 id) new64a (omega arith) in
    let p = clockwise xs (hash_key id) in
    (
      p,
      rw (route_filled r id filled) refl,
      sym (members p) ∙ elem-clockwise xs (hash_key id) ascending some_position words word,
      NoCloser-of_all (hash_key id) p ps (λ k e.
          clockwise-closest xs (hash_key id) ascending some_position words word k (members k ∙ e)),
      rw (route_filled r id filled) (record { words = ok.words; cached = same }),
      rw (route_filled r id filled) refl,
    )
