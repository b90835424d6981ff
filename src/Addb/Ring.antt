-- ===== src/Addb/Ring.antt =====
-- internal/addb/ring.go: the consistent hash ring. A node's name is its bytes. A map is a list of its
-- entries, one for each key; the order in which Go visits them is lost when the code sorts them.
pub mod Route
pub mod Invariant
use setrixdb.Base.{
  ℕ, zero, suc, ◌+◌, Bool, true, false, ◌&&◌, not, Option, none, some, List, [], ◌∷◌, length,
  get_or, leb, ◌==◌, if◌then◌else◌,
}
use setrixdb.Std.Sort.{sort_slice}
use setrixdb.Std.Search.{sort_search}
use setrixdb.Std.Endian.{put_le}
use setrixdb.Std.Fnv.{new64a, write64a}

abbrev pub Node : Type 0
Node = List ℕ

same_node : Node → Node → Bool
same_node [] [] = true
same_node [] (b ∷ node) = false
same_node (b ∷ node) [] = false
same_node (b ∷ node) (b' ∷ node') = b == b' && same_node node node'

pub record Ring : Type 0 where
  pub replicas : ℕ
  pub points : List (ℕ × Node)
  pub nodes : List Node
  pub sorted : Option (List ℕ)

-- A number of replicas below 0 is taken for 0.
unfoldable pub new_ring : ℕ → Ring
new_ring replicas = record {
  replicas = if replicas == 0 then 100 else replicas;
  points = [];
  nodes = [];
  sorted = none;
}

-- `b[i] = byte(id >> (8 * i))` for the 8 bytes.
pub hash_key : ℕ → ℕ
hash_key id = write64a new64a (put_le 8 id)

unfoldable pub hash_key_node : Node → ℕ → ℕ
hash_key_node node i = write64a (write64a new64a node) (put_le 4 i)

pub has_node : Node → List Node → Bool
unfolding same_node
has_node node [] = false
has_node node (n ∷ nodes) = if same_node node n then true else has_node node nodes

-- `r.points[p] = node`, `delete(r.points, p)` and `r.points[p]`; "" for a missing key.
pub put_point : List (ℕ × Node) → ℕ → Node → List (ℕ × Node)
put_point [] p node = (p, node) ∷ []
put_point ((p', n) ∷ points) p node =
    if p' == p then (p, node) ∷ points else (p', n) ∷ put_point points p node

pub delete_point : List (ℕ × Node) → ℕ → List (ℕ × Node)
delete_point [] p = []
delete_point ((p', n) ∷ points) p =
    let rest = delete_point points p in if p' == p then points else (p', n) ∷ rest

pub point_at : List (ℕ × Node) → ℕ → Node
point_at [] p = []
point_at ((p', n) ∷ points) p = if p' == p then n else point_at points p

-- The loops over the replicas, at `i` with so many rounds left.
pub add_points : ℕ → ℕ → Node → List (ℕ × Node) → List (ℕ × Node)
unfolding put_point
add_points zero i node points = points
add_points (suc left) i node points =
    add_points left (i + 1) node (put_point points (hash_key_node node i) node)

pub remove_points : ℕ → ℕ → Node → List (ℕ × Node) → List (ℕ × Node)
unfolding delete_point
remove_points zero i node points = points
remove_points (suc left) i node points =
    remove_points left (i + 1) node (delete_point points (hash_key_node node i))

unfoldable pub add_node : Ring → Node → Ring
unfolding has_node add_points
add_node r node = if has_node node r.nodes then r else record {
  replicas = r.replicas;
  points = add_points r.replicas 0 node r.points;
  nodes = node ∷ r.nodes;
  sorted = none;
}

pub delete_node : Node → List Node → List Node
unfolding same_node
delete_node node [] = []
delete_node node (n ∷ nodes) =
    let rest = delete_node node nodes in if same_node node n then nodes else n ∷ rest

unfoldable pub remove_node : Ring → Node → Ring
unfolding has_node delete_node remove_points
remove_node r node = if not (has_node node r.nodes) then r else record {
  replicas = r.replicas;
  points = remove_points r.replicas 0 node r.points;
  nodes = delete_node node r.nodes;
  sorted = none;
}

pub positions : List (ℕ × Node) → List ℕ
positions [] = []
positions ((p, n) ∷ points) = p ∷ positions points

-- The cache after `ensureSorted`.
pub ensured : Ring → Option (List ℕ) → List ℕ
ensured r (some sorted) = sorted
ensured r none = sort_slice (positions r.points)

unfoldable pub ensure_sorted : Ring → Ring
unfolding ensured
ensure_sorted r = record {
  replicas = r.replicas;
  points = r.points;
  nodes = r.nodes;
  sorted = some (ensured r r.sorted);
}

-- The position that `Route` chooses in the cache.
pub clockwise : List ℕ → ℕ → ℕ
clockwise sorted pos =
    let found = sort_search (length sorted) (λ i. leb pos (get_or sorted i 0)) in
    let idx = if found == length sorted then 0 else found in get_or sorted idx 0

unfoldable pub route : Ring → ℕ → Option Node × Ring
unfolding clockwise point_at ensured ensure_sorted
route r id =
    if length r.points == 0
    then (none, r)
    else (some (point_at r.points (clockwise (ensured r r.sorted) (hash_key id))), ensure_sorted r)
