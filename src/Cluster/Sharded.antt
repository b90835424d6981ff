-- ===== src/Cluster/Sharded.antt =====
-- internal/cluster/sharded.go: shards of words among nodes by the hash ring. A name of a node is its
-- address; which node answers there is the parameter `at`. The connections stand in the order in which
-- Go visits the map; the results of `gather` are summed in that order, which a sum does not show. The
-- products of a number of shards and a number of words stay below 2 ^ 63.
pub mod Slices
pub mod Intersect
pub mod Loading
mod Examples
use setrixdb.Base.{
  ltb, if◌then◌else◌, length, get_or, take, drop, str_eq, ℕ, zero, suc, ◌+◌, ◌-◌, ◌*◌, ◌/◌, Bool,
  true, false, not, Option, none, some, List, [], ◌∷◌, ◌++◌,
}
use setrixdb.Addb.Ring
use setrixdb.Addb.Ring.{Ring, new_ring, add_node, route}
use setrixdb.Cluster.{read_msg}
use setrixdb.Cluster.Coordinator.{
  Nodes, exchange, load_payload, stored_payload, query_payload, ask, total,
}

pub record Conn : Type 0 where
  pub address : List ℕ
  pub node : ℕ

pub record ShardedCluster : Type 0 where
  pub words : ℕ
  pub shards : ℕ
  pub ring : Ring
  pub owners : List (List ℕ)
  pub conns : List Conn

pub add_nodes : Ring → List (List ℕ) → Ring
add_nodes ring [] = ring
add_nodes ring (a ∷ addrs) = add_nodes (add_node ring a) addrs

-- `sc.owners[s], _ = ring.Route(uint64(s))`: "" for a ring without points.
pub owner_name : Option (List ℕ) → List ℕ
owner_name none = []
owner_name (some a) = a

-- `for s := …; s < shards; s++ { … }` at `s`, with so many rounds left: the owners and the ring.
pub route_shards : ℕ → ℕ → Ring → List (List ℕ) × Ring
unfolding owner_name
route_shards zero s ring = ([], ring)
route_shards (suc left) s ring =
    let (owner, next) = route ring s in
    let (owners, last) = route_shards left (s + 1) next in (owner_name owner ∷ owners, last)

-- `sc.conns[a] = c`
pub put_conn : List ℕ → ℕ → List Conn → List Conn
put_conn a node [] = record { address = a; node = node } ∷ []
put_conn a node (c ∷ conns) =
    let rest = put_conn a node conns in
    if str_eq c.address a then record { address = a; node = node } ∷ conns else c ∷ rest

pub dial_all : Nodes → (List ℕ → ℕ) → List (List ℕ) → List Conn → Option (List Conn)
unfolding put_conn
dial_all nodes at [] conns = some conns
dial_all nodes at (a ∷ addrs) conns = elim (get_or nodes (at a) none) [
  | none ↦ none
  | some sets ↦ dial_all nodes at addrs (put_conn a (at a) conns)
]

unfoldable pub new_sharded_cluster :
    Nodes → (List ℕ → ℕ) → List (List ℕ) → ℕ → ℕ → ℕ → Option ShardedCluster
unfolding add_nodes route_shards dial_all
new_sharded_cluster nodes at addrs words shards replicas =
    let (owners, ring) = route_shards shards 0 (add_nodes (new_ring replicas) addrs) in
    elim (dial_all nodes at addrs []) [
      | none ↦ none
      | some conns ↦
          some
            (record { words = words; shards = shards; ring = ring; owners = owners; conns = conns })
    ]

pub words_of_shard : ShardedCluster → ℕ → ℕ × ℕ
words_of_shard sc s = (s * sc.words / sc.shards, (s + 1) * sc.words / sc.shards)

-- `for s := …; s < sc.Shards; s++ { … }` at `s`, with so many rounds left: what is appended to `buf`.
-- A slice past the end of the words panics: `none`.
pub slice_from : ShardedCluster → List ℕ → List ℕ → ℕ → ℕ → Option (List ℕ)
unfolding words_of_shard
slice_from sc global node zero s = some []
slice_from sc global node (suc left) s =
    let (lo, hi) = words_of_shard sc s in
    let rest = slice_from sc global node left (s + 1) in
    if not (str_eq (get_or sc.owners s []) node)
    then rest
    else (if ltb (length global) hi
        then none
        else elim rest [ none ↦ none | some buf ↦ some (take (hi - lo) (drop lo global) ++ buf) ])

pub node_slice : ShardedCluster → List ℕ → List ℕ → Option (List ℕ)
unfolding slice_from
node_slice sc global node = slice_from sc global node sc.shards 0

-- `LoadSet` over the connections that are left: false for an error, a panic, and an answer that never
-- comes.
pub load_shards : ShardedCluster → Nodes → List Conn → List ℕ → List ℕ → Nodes × Bool
unfolding node_slice
load_shards sc nodes [] name global = (nodes, true)
load_shards sc nodes (c ∷ conns) name global = elim (node_slice sc global c.address) [
  | none ↦ (nodes, false)
  | some words ↦ elim (exchange nodes c.node (load_payload name words)) [
    | none ↦ (nodes, false)
    | some (after, sent) ↦ elim (read_msg sent) [
      | none ↦ (after, false)
      | some ack ↦ load_shards sc after conns name global
    ]
  ]
]

pub load_sharded_set : ShardedCluster → Nodes → List ℕ → List ℕ → Nodes × Bool
unfolding load_shards
load_sharded_set sc nodes name global = load_shards sc nodes sc.conns name global

pub ask_conns : Nodes → List Conn → (List ℕ → Option (List ℕ)) → Nodes × List (Option ℕ)
ask_conns nodes [] send = (nodes, [])
ask_conns nodes (c ∷ conns) send =
    let (after, count) = ask nodes c.node (send c.address) in
    let (last, counts) = ask_conns after conns send in (last, count ∷ counts)

pub gather_shards : ShardedCluster → Nodes → (List ℕ → Option (List ℕ)) → Nodes × Option ℕ
unfolding ask_conns
gather_shards sc nodes send =
    let (after, counts) = ask_conns nodes sc.conns send in (after, total 0 counts)

pub intersect_sharded_stored : ShardedCluster → Nodes → List ℕ → List ℕ → Nodes × Option ℕ
unfolding gather_shards
intersect_sharded_stored sc nodes a b = gather_shards sc nodes (λ node. some (stored_payload a b))

pub sharded_query : ShardedCluster → List ℕ → List ℕ → List ℕ → Option (List ℕ)
unfolding node_slice
sharded_query sc name query node = elim (node_slice sc query node) [
  | none ↦ none
  | some words ↦ some (query_payload name words)
]

unfoldable pub intersect_sharded_query : ShardedCluster → Nodes → List ℕ → List ℕ → Nodes × Option ℕ
unfolding gather_shards sharded_query
intersect_sharded_query sc nodes name query = gather_shards sc nodes (sharded_query sc name query)
