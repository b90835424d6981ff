-- ===== src/Cluster/Sharded/Loading.antt =====
-- `LoadSet` of the sharded cluster: every node holds its slice of the set afterwards.
use setrixdb.Base.{
  ◌==◌, ==_refl, Bool-cases, some_inj, length, get_or, set, replicate, get_or-set_self,
  get_or-set_ne, elem, Below, IsUnique, u64_mod, str_eq, has_str, AreUnique, ℕ, ◌+◌, ◌*◌, ◌^◌, ◌≤◌,
  ◌<◌, ◌≡◌, refl, sym, ap, ◌∙◌, ◌≢◌, inl, inr, Bool, true, false, Option, none, some, List, [], ◌∷◌,
  map, arith,
}
use setrixdb.Cluster.{Sets, write_msg, read_msg, words_of, max_msg, and_count}
use setrixdb.Cluster.Wire.{read_msg-write_msg}
use setrixdb.Cluster.Coordinator.{Nodes, exchange, load_payload}
use setrixdb.Cluster.Coordinator.Answers.{append-nil, act-load_payload, exchange_lem}
use setrixdb.Cluster.Coordinator.Loading.{
  in_range, words_of-own, words_of-other, length-load_payload,
}
use setrixdb.Cluster.Sharded.{
  Conn, ShardedCluster, node_slice, load_shards, load_sharded_set, intersect_sharded_stored,
}
use setrixdb.Cluster.Sharded.Intersect.{addresses, HoldsSlices, intersect_sharded_stored-and_count}

abbrev pub nodes_of : List Conn → List ℕ
nodes_of conns = map (λ (c : Conn). c.node) conns

-- The node of each connection can be reached.
abbrev pub AreUp : Nodes → List Conn → Type 0
AreUp nodes [] = Unit
AreUp nodes (c ∷ conns) =
    ((sets : Sets) × (get_or nodes c.node none ≡ some sets)) × AreUp nodes conns

-- The slice of each connection lies within the words, and its message is one that the reader takes.
abbrev pub AllFit : ShardedCluster → ℕ → List Conn → List ℕ → Type 0
AllFit sc room [] global = Unit
AllFit sc room (c ∷ conns) global =
    ((words : List ℕ) × (node_slice sc global c.address ≡ some words)
      × Below u64_mod words
      × (room + 8 * length words ≤ max_msg))
    × AllFit sc room conns global

AreUp-set :
    (nodes : Nodes) (a : ℕ) (sets : Sets) (conns : List Conn)
    → a < length nodes
    → AreUp nodes conns
    → AreUp (set nodes a (some sets)) conns
AreUp-set nodes a sets [] h up = tt
AreUp-set nodes a sets (c ∷ conns) h up = (
  elim (Bool-cases (a == c.node)) [
    | inl e ↦
        let same : a ≡ c.node = ground arith in
        (sets, rw (← same) (get_or-set_self nodes a (some sets) none h))
    | inr e ↦
        let ne : a ≢ c.node = ground (arith, ==_refl a) in
        (up.0.0, get_or-set_ne nodes a c.node (some sets) none ne ∙ up.0.1)
  ],
  AreUp-set nodes a sets conns h up.1,
)

-- Nodes that agree at the connections hold the same.
HoldsSlices-same :
    (sc : ShardedCluster) (nodes after : Nodes) (conns : List Conn) (name global : List ℕ)
    → ((a : ℕ) → elem a (nodes_of conns) ≡ true → get_or after a none ≡ get_or nodes a none)
    → HoldsSlices sc nodes conns name global
    → HoldsSlices sc after conns name global
HoldsSlices-same sc nodes after [] name global same h = tt
HoldsSlices-same sc nodes after (c ∷ conns) name global same h =
    let (sets, there, own) = h.0 in
    (
      (sets, same c.node (ground (arith, ==_refl c.node)) ∙ there, own),
      HoldsSlices-same sc nodes after conns name global (λ a e. same a (ground arith)) h.1,
    )

-- What a load leaves.
pub record IsLoaded (sc : ShardedCluster) (nodes : Nodes) (conns : List Conn) (name global : List ℕ)
    (after : Nodes) : Type 0 where
  pub kept : (a : ℕ) → elem a (nodes_of conns) ≡ false → get_or after a none ≡ get_or nodes a none
  pub holds : HoldsSlices sc after conns name global
  pub others :
      (other words : List ℕ)
      → str_eq name other ≡ false
      → HoldsSlices sc nodes conns other words
      → HoldsSlices sc after conns other words
  pub up : AreUp nodes conns → AreUp after conns

-- The first connection, before the rest.
IsLoaded-cons :
    (sc : ShardedCluster) (nodes : Nodes) (c : Conn) (conns : List Conn)
    (name global words : List ℕ) (sets : Sets) (after : Nodes)
    → get_or nodes c.node none ≡ some sets
    → node_slice sc global c.address ≡ some words
    → elem c.node (nodes_of conns) ≡ false
    → IsLoaded sc (set nodes c.node (some ((name, words) ∷ sets))) conns name global after
    → IsLoaded sc nodes (c ∷ conns) name global after
IsLoaded-cons sc nodes c conns name global words sets after there cut new f =
    let stored : Option Sets = some ((name, words) ∷ sets) in
    let inside = in_range nodes c.node sets there in
    let own : get_or after c.node none ≡ stored =
      f.kept c.node new ∙ get_or-set_self nodes c.node stored none inside in
    record {
      kept = λ a e.
          f.kept a (ground arith)
          ∙ get_or-set_ne nodes c.node a stored none (ground (arith, ==_refl c.node));
      holds = (
        ((name, words) ∷ sets, own, cut ∙ ap some (sym (words_of-own name words sets))),
        f.holds,
      );
      others = λ other global' ne h.
          let (before, at, held) = h.0 in
          let same : before ≡ sets = some_inj before sets (sym at ∙ there) in
          (
            (
              (name, words) ∷ sets,
              own,
              held
                  ∙ ap (λ (s : Sets). some (words_of s other)) same
                  ∙ ap some (sym (words_of-other name words other sets ne)),
            ),
            f.others other global' ne (
                HoldsSlices-same sc nodes (set nodes c.node stored) conns other global'
                  (λ a e. get_or-set_ne nodes c.node a stored none (λ q.
                    let listed : elem c.node (nodes_of conns) ≡ true = rw q e in ground arith))
                  h.1),
          );
      up = λ h. (
        ((name, words) ∷ sets, own),
        f.up (AreUp-set nodes c.node ((name, words) ∷ sets) conns inside h.1),
      );
    }

load_step :
    (sc : ShardedCluster) (nodes next : Nodes) (c : Conn) (conns : List Conn)
    (name global words : List ℕ) (after : Nodes)
    → node_slice sc global c.address ≡ some words
    → exchange nodes c.node (load_payload name words) ≡ some (next, write_msg (replicate 8 0))
    → read_msg (write_msg (replicate 8 0)) ≡ some (replicate 8 0, [])
    → load_shards sc next conns name global ≡ (after, true)
    → load_shards sc nodes (c ∷ conns) name global ≡ (after, true)
unfolding load_shards
load_step sc nodes next c conns name global words after cut sent ack run =
    let Acked : Nodes → Option (List ℕ × List ℕ) → Nodes × Bool = λ now o. elim o [
      | none ↦ (now, false)
      | some answer ↦ load_shards sc now conns name global
    ] in
    let Sent : Option (Nodes × List ℕ) → Nodes × Bool =
      λ o. elim o [ none ↦ (nodes, false) | some (now, bytes) ↦ Acked now (read_msg bytes) ] in
    let Cut : Option (List ℕ) → Nodes × Bool = λ o. elim o [
      | none ↦ (nodes, false)
      | some found ↦ Sent (exchange nodes c.node (load_payload name found))
    ] in
    ap Cut cut ∙ ap Sent sent ∙ ap (Acked next) ack ∙ run

load_shards-IsLoaded :
    (sc : ShardedCluster) (nodes : Nodes) (conns : List Conn) (name global : List ℕ)
    → length name < 2 ^ 16
    → IsUnique (nodes_of conns)
    → AreUp nodes conns
    → AllFit sc (3 + length name) conns global
    → (after : Nodes) × (load_shards sc nodes conns name global ≡ (after, true))
      × IsLoaded sc nodes conns name global after
unfolding load_shards
load_shards-IsLoaded sc nodes [] name global short once up fit = (
  nodes,
  refl,
  record { kept = λ a e. refl; holds = tt; others = λ other words ne h. h; up = λ h. h },
)
load_shards-IsLoaded sc nodes (c ∷ conns) name global short once up fit =
    let (sets, there) = up.0 in
    let (words, cut, below, room) = fit.0 in
    let now : Sets = (name, words) ∷ sets in
    let next : Nodes = set nodes c.node (some now) in
    let sent =
      exchange_lem nodes c.node (load_payload name words) sets now (replicate 8 0) there
        (omega (arith, length-load_payload name words, room))
        (act-load_payload sets name words short below) in
    let ack : read_msg (write_msg (replicate 8 0)) ≡ some (replicate 8 0, []) =
      ap read_msg (sym (append-nil (write_msg (replicate 8 0))))
      ∙ read_msg-write_msg (replicate 8 0) [] (omega arith) in
    let (after, run, loaded) =
      load_shards-IsLoaded sc next conns name global short once.1
        (AreUp-set nodes c.node now conns (in_range nodes c.node sets there) up.1) fit.1 in
    (
      after,
      load_step sc nodes next c conns name global words after cut sent ack run,
      IsLoaded-cons sc nodes c conns name global words sets after there cut once.0 loaded,
    )

-- `LoadSet` of two sets of all the words under two names, over connections to different nodes that can be
-- reached, among them the owner of each of the shards, where each slice fits a message: both loads succeed,
-- and the count of `IntersectStored` afterwards is the count over the whole sets.
pub load_sharded_set-intersect_sharded_stored :
    (sc : ShardedCluster) (nodes : Nodes) (a b x y : List ℕ)
    → 0 < sc.shards
    → length x ≡ sc.words
    → length y ≡ sc.words
    → length a < 2 ^ 16
    → length b < 2 ^ 16
    → str_eq b a ≡ false
    → AreUnique (addresses sc.conns)
    → IsUnique (nodes_of sc.conns)
    → ((s : ℕ) → s < sc.shards → has_str (get_or sc.owners s []) (addresses sc.conns) ≡ true)
    → AreUp nodes sc.conns
    → AllFit sc (3 + length a) sc.conns x
    → AllFit sc (3 + length b) sc.conns y
    → (first : Nodes) × (second : Nodes) × (load_sharded_set sc nodes a x ≡ (first, true))
      × (load_sharded_set sc first b y ≡ (second, true))
      × (intersect_sharded_stored sc second a b ≡ (second, some (and_count x y)))
unfolding load_sharded_set
load_sharded_set-intersect_sharded_stored sc nodes a b x y some_shards size size' short short' apart
      once different owned up fit fit' =
    let (first, run, loaded) = load_shards-IsLoaded sc nodes sc.conns a x short different up fit in
    let (second, run', loaded') =
      load_shards-IsLoaded sc first sc.conns b y short' different (loaded.up up) fit' in
    (
      first,
      second,
      run,
      run',
      intersect_sharded_stored-and_count sc second a b x y some_shards size size' short short' once
          owned (loaded'.others a x apart loaded.holds) loaded'.holds,
    )
