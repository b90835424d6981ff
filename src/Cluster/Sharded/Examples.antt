-- ===== src/Cluster/Sharded/Examples.antt =====
-- Three shards of a word each, two of them on one node.
use setrixdb.Base.{get_or, has_str, ℕ, zero, suc, ◌<◌, ◌≡◌, refl, true, some, List, [], ◌∷◌, arith}
use setrixdb.Addb.Ring.{new_ring}
use setrixdb.Cluster.{and_count}
use setrixdb.Cluster.Coordinator.{Nodes}
use setrixdb.Cluster.Sharded.{
  ShardedCluster, node_slice, slice_from, words_of_shard, load_sharded_set,
  intersect_sharded_stored,
}
use setrixdb.Cluster.Sharded.Intersect.{addresses}
use setrixdb.Cluster.Sharded.Loading.{AllFit, load_sharded_set-intersect_sharded_stored}

-- The addresses "n" and "m".
abbrev n : List ℕ
n = 110 ∷ []

abbrev m : List ℕ
m = 109 ∷ []

abbrev sc : ShardedCluster
sc = record {
  words = 3;
  shards = 3;
  ring = new_ring 1;
  owners = n ∷ m ∷ n ∷ [];
  conns = record { address = n; node = 0 } ∷ record { address = m; node = 1 } ∷ [];
}

abbrev a : List ℕ
a = 97 ∷ []

abbrev b : List ℕ
b = 98 ∷ []

abbrev x : List ℕ
x = 7 ∷ 0 ∷ 12 ∷ []

abbrev y : List ℕ
y = 5 ∷ 1 ∷ 4 ∷ []

-- Two nodes that hold nothing yet.
abbrev empty_nodes : Nodes
empty_nodes = some [] ∷ some [] ∷ []

slices-AllFit : AllFit sc 4 sc.conns x × AllFit sc 4 sc.conns y
unfolding node_slice slice_from words_of_shard
slices-AllFit = (
  ((7 ∷ 12 ∷ [], refl, omega arith, omega arith), ((0 ∷ [], refl, omega arith, omega arith), tt)),
  ((5 ∷ 4 ∷ [], refl, omega arith, omega arith), ((1 ∷ [], refl, omega arith, omega arith), tt)),
)

owned : (s : ℕ) → s < 3 → has_str (get_or sc.owners s []) (addresses sc.conns) ≡ true
owned zero h = refl
owned (suc zero) h = refl
owned (suc (suc zero)) h = refl
owned (suc (suc (suc s))) h = absurd (omega arith)

load_sharded_set-intersect_sharded_stored_example :
    (first : Nodes) × (second : Nodes) × (load_sharded_set sc empty_nodes a x ≡ (first, true))
    × (load_sharded_set sc first b y ≡ (second, true))
    × (intersect_sharded_stored sc second a b ≡ (second, some (and_count x y)))
load_sharded_set-intersect_sharded_stored_example =
    load_sharded_set-intersect_sharded_stored sc empty_nodes a b x y (omega arith) refl refl
      (omega arith) (omega arith) refl (refl, (refl, tt)) (refl, (refl, tt)) owned
      (([], refl), (([], refl), tt)) slices-AllFit.0 slices-AllFit.1
