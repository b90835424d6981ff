-- ===== src/Examples/Rings.antt =====
-- A ring with the nodes "a" and "b", two replicas each.
use setrixdb.Base.{ℕ, ◌<◌, ◌≡◌, true, some, [], ◌∷◌, length, elem, arith}
use setrixdb.Std.Endian.{put_le}
use setrixdb.Std.Fnv.{write64a}
use setrixdb.Addb.Ring.{
  hash_key_node, Ring, new_ring, add_node, remove_node, route, point_at, positions, hash_key,
}
use setrixdb.Addb.Ring.Route.{NoCloser}
use setrixdb.Addb.Ring.Invariant.{
  IsWellFormed, new_ring-IsWellFormed, add_node-IsWellFormed, remove_node-IsWellFormed,
  route-NoCloser,
}

abbrev ring : Ring
ring = add_node (remove_node (add_node (new_ring 2) (97 ∷ [])) (99 ∷ [])) (98 ∷ [])

ring-IsWellFormed : IsWellFormed ring
ring-IsWellFormed =
    add_node-IsWellFormed (remove_node (add_node (new_ring 2) (97 ∷ [])) (99 ∷ [])) (98 ∷ []) (
      remove_node-IsWellFormed (add_node (new_ring 2) (97 ∷ [])) (99 ∷ [])
        (add_node-IsWellFormed (new_ring 2) (97 ∷ []) (new_ring-IsWellFormed 2)))

ring_filled : 0 < length ring.points
unfolding new_ring add_node remove_node hash_key_node write64a put_le
ring_filled = omega arith

route-NoCloser_example :
    (p : ℕ) × ((route ring 42).0 ≡ some (point_at ring.points p))
    × (elem p (positions ring.points) ≡ true)
    × NoCloser (hash_key 42) p (positions ring.points)
    × IsWellFormed (route ring 42).1
    × ((route ring 42).1.points ≡ ring.points)
route-NoCloser_example = route-NoCloser ring 42 ring-IsWellFormed ring_filled
