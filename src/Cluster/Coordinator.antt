-- ===== src/Cluster/Coordinator.antt =====
-- internal/cluster/cluster.go: the coordinator. The nodes are their sets, `none` for a node that cannot
-- be reached; an address is the place of its node. The products of a number of nodes and a number of
-- words stay below 2 ^ 63, since both count what is in memory.
pub mod Answers
pub mod Loading
pub mod Intersect
pub mod Dialling
use setrixdb.Base.{
  ltb, if◌then◌else◌, length, get_or, set, take, drop, u64, ℕ, ◌+◌, ◌-◌, ◌*◌, ◌/◌, Bool, true,
  false, Option, none, some, List, [], ◌∷◌, ◌++◌,
}
use setrixdb.Std.Endian.{get_le}
use setrixdb.Cluster.{
  Sets, write_msg, read_msg, bytes_view, write_name, serve, op_load_set, op_and_stored,
  op_and_query,
}

abbrev pub Nodes : Type 0
Nodes = List (Option Sets)

-- A connection with its `lo` and `hi`.
pub record Link : Type 0 where
  pub node : ℕ
  pub lo : ℕ
  pub hi : ℕ

-- `for i, a := range addrs { … }` at `i`; `none` for an error.
pub dial_from : Nodes → ℕ → ℕ → ℕ → List ℕ → Option (List Link)
dial_from nodes count words i [] = some []
dial_from nodes count words i (a ∷ addrs) = elim (get_or nodes a none) [
  | none ↦ none
  | some sets ↦ elim (dial_from nodes count words (i + 1) addrs) [
    | none ↦ none
    | some links ↦
        some (record { node = a; lo = i * words / count; hi = (i + 1) * words / count } ∷ links)
  ]
]

pub dial : Nodes → List ℕ → ℕ → Option (List Link)
unfolding dial_from
dial nodes addrs words = dial_from nodes (length addrs) words 0 addrs

-- `global[lo:hi]`; `none` for the panic past the end.
pub slice : List ℕ → Link → Option (List ℕ)
slice global l =
    if ltb (length global) l.hi then none else some (take (l.hi - l.lo) (drop l.lo global))

-- A message written on a connection, and what its node sends back; `none` for an error.
pub exchange : Nodes → ℕ → List ℕ → Option (Nodes × List ℕ)
unfolding serve
exchange nodes a payload = elim (get_or nodes a none) [
  | none ↦ none
  | some sets ↦
      let (after, sent) = serve sets (write_msg payload) in some (set nodes a (some after), sent)
]

pub load_payload : List ℕ → List ℕ → List ℕ
load_payload name words = write_name (op_load_set ∷ []) name ++ bytes_view words

-- `LoadSet` over the connections that are left: false for an error, a panic, and an answer that never
-- comes.
pub load_set : Nodes → List Link → List ℕ → List ℕ → Nodes × Bool
unfolding slice exchange load_payload
load_set nodes [] name global = (nodes, true)
load_set nodes (l ∷ links) name global = elim (slice global l) [
  | none ↦ (nodes, false)
  | some words ↦ elim (exchange nodes l.node (load_payload name words)) [
    | none ↦ (nodes, false)
    | some (after, sent) ↦ elim (read_msg sent) [
      | none ↦ (after, false)
      | some ack ↦ load_set after links name global
    ]
  ]
]

-- A goroutine of `gather`: the count, or `none` for an error, a panic, and an answer that never comes.
pub count_of : Option (List ℕ × List ℕ) → Option ℕ
count_of none = none
count_of (some (resp, rest)) = if ltb (length resp) 8 then none else some (get_le (take 8 resp))

pub ask : Nodes → ℕ → Option (List ℕ) → Nodes × Option ℕ
unfolding exchange count_of
ask nodes a none = (nodes, none)
ask nodes a (some payload) = elim (exchange nodes a payload) [
  | none ↦ (nodes, none)
  | some (after, sent) ↦ (after, count_of (read_msg sent))
]

pub ask_all : Nodes → List Link → (Link → Option (List ℕ)) → Nodes × List (Option ℕ)
unfolding ask
ask_all nodes [] send = (nodes, [])
ask_all nodes (l ∷ links) send =
    let (after, count) = ask nodes l.node (send l) in
    let (last, counts) = ask_all after links send in (last, count ∷ counts)

-- `for i := range counts { … }`, after the sum so far.
pub total : ℕ → List (Option ℕ) → Option ℕ
total sum [] = some sum
total sum (none ∷ counts) = none
total sum (some n ∷ counts) = total (u64 (sum + n)) counts

pub gather : Nodes → List Link → (Link → Option (List ℕ)) → Nodes × Option ℕ
unfolding ask_all total
gather nodes links send = let (after, counts) = ask_all nodes links send in (after, total 0 counts)

pub stored_payload : List ℕ → List ℕ → List ℕ
stored_payload a b = write_name (write_name (op_and_stored ∷ []) a) b

pub intersect_stored : Nodes → List Link → List ℕ → List ℕ → Nodes × Option ℕ
unfolding gather stored_payload
intersect_stored nodes links a b = gather nodes links (λ l. some (stored_payload a b))

pub query_payload : List ℕ → List ℕ → List ℕ
query_payload name words = write_name (op_and_query ∷ []) name ++ bytes_view words

pub query_message : List ℕ → List ℕ → Link → Option (List ℕ)
unfolding slice query_payload
query_message name query l = elim (slice query l) [
  | none ↦ none
  | some words ↦ some (query_payload name words)
]

pub intersect_query : Nodes → List Link → List ℕ → List ℕ → Nodes × Option ℕ
unfolding gather query_message
intersect_query nodes links name query = gather nodes links (query_message name query)
