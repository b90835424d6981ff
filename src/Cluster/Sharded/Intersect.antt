-- ===== src/Cluster/Sharded/Intersect.antt =====
-- `IntersectStored` of the sharded cluster counts what one count over the whole would.
use setrixdb.Base.{
  some_inj, length, get_or, u64, has_str, AreUnique, ℕ, ◌+◌, ◌*◌, ◌/◌, ◌^◌, ◌<◌, ◌≡◌, refl, sym, ap,
  ap₂, ◌∙◌, subst, true, Option, none, some, List, [], ◌∷◌, map, arith,
}
use native.Mathlib.Nat.{div-eq_of_lt}
use setrixdb.Std.Endian.{put_le}
use setrixdb.Cluster.{Sets, sends, words_of, and_count}
use setrixdb.Cluster.Coordinator.{Nodes, stored_payload, total}
use setrixdb.Cluster.Coordinator.Answers.{act-stored_payload}
use setrixdb.Cluster.Coordinator.Intersect.{
  Covers, sum_of, total-sum_of, ask_count, and_count-lt, length-stored_payload, whole,
}
use setrixdb.Cluster.Sharded.{
  Conn, ShardedCluster, node_slice, ask_conns, gather_shards, intersect_sharded_stored,
}
use setrixdb.Cluster.Sharded.Slices.{
  nodes_sum, slice_from-node_sum, nodes_sum-shards_sum, shard_links, sum_of-shard_links,
  Covers-shard_links,
}

abbrev pub addresses : List Conn → List (List ℕ)
addresses conns = map (λ (c : Conn). c.address) conns

-- The node of each connection holds its slice of the set under the name.
abbrev pub HoldsSlices : ShardedCluster → Nodes → List Conn → List ℕ → List ℕ → Type 0
HoldsSlices sc nodes [] name global = Unit
HoldsSlices sc nodes (c ∷ conns) name global =
    ((sets : Sets) × (get_or nodes c.node none ≡ some sets)
      × (node_slice sc global c.address ≡ some (words_of sets name)))
    × HoldsSlices sc nodes conns name global

module _ (sc : ShardedCluster) (x y : List ℕ) (some_shards : 0 < sc.shards)
    (size : length x ≡ sc.words) (size' : length y ≡ sc.words) where
  abbrev slice_count : Conn → ℕ
  slice_count c =
      let (a, b, run, run', same, counted) =
        slice_from-node_sum sc x y some_shards size size' c.address sc.shards 0 (omega arith) in
      and_count a b

  ask_conns-slice_count :
      (nodes : Nodes) (a b : List ℕ) (conns : List Conn)
      → length a < 2 ^ 16
      → length b < 2 ^ 16
      → HoldsSlices sc nodes conns a x
      → HoldsSlices sc nodes conns b y
      → ask_conns nodes conns (λ node. some (stored_payload a b))
        ≡ (nodes, map (λ (c : Conn). some (slice_count c)) conns)
  unfolding ask_conns node_slice
  ask_conns-slice_count nodes a b [] short short' h h' = refl
  ask_conns-slice_count nodes a b (c ∷ conns) short short' h h' =
      let (sets, there, own) = h.0 in
      let (sets', there', own') = h'.0 in
      let same : sets' ≡ sets = some_inj sets' sets (sym there' ∙ there) in
      let (p, q, run, run', same_size, counted) =
        slice_from-node_sum sc x y some_shards size size' c.address sc.shards 0 (omega arith) in
      let first : words_of sets a ≡ p = some_inj (words_of sets a) p (sym own ∙ run) in
      let second : words_of sets b ≡ q =
        some_inj (words_of sets b) q
          (ap (λ (s : Sets). some (words_of s b)) (sym same) ∙ sym own' ∙ run') in
      let asked =
        ask_count nodes c.node (stored_payload a b) sets (slice_count c) there
          (omega (arith, length-stored_payload a b))
          (act-stored_payload sets a b short short'
            ∙ ap (λ (n : ℕ). sends (put_le 8 n) sets) (ap₂ and_count first second))
          (and_count-lt p q) in
      ap
        (λ (r : Nodes × Option ℕ). (
          (ask_conns r.0 conns (λ node. some (stored_payload a b))).0,
          r.1 ∷ (ask_conns r.0 conns (λ node. some (stored_payload a b))).1,
        ))
        asked
      ∙ ap (λ (r : Nodes × List (Option ℕ)). (r.0, some (slice_count c) ∷ r.1))
          (ask_conns-slice_count nodes a b conns short short' h.1 h'.1)

  sum_of-slice_count :
      (conns : List Conn)
      → u64 (sum_of slice_count conns)
        ≡ u64 (nodes_sum sc x y some_shards size size' (addresses conns) sc.shards 0)
  sum_of-slice_count [] = refl
  sum_of-slice_count (c ∷ conns) =
      let (a, b, run, run', same, count) =
        slice_from-node_sum sc x y some_shards size size' c.address sc.shards 0 (omega arith) in
      omega (arith, count, sum_of-slice_count conns)

  slices_whole :
      (conns : List Conn)
      → AreUnique (addresses conns)
      → ((s : ℕ) → s < sc.shards → has_str (get_or sc.owners s []) (addresses conns) ≡ true)
      → u64 (sum_of slice_count conns) ≡ and_count x y
  slices_whole conns once owned =
      let zero_lo : 0 * sc.words / sc.shards ≡ 0 =
        ap (λ (n : ℕ). n / sc.shards) {x = 0 * sc.words} {y = 0} (omega arith)
        ∙ div-eq_of_lt some_shards in
      let links = shard_links sc x y some_shards size size' sc.shards 0 in
      let covers : Covers 0 (length x) links =
        subst (λ (n : ℕ). Covers 0 n links) (sym size)
          (subst (λ (lo : ℕ). Covers lo sc.words links) zero_lo
            (Covers-shard_links sc x y some_shards size size' sc.shards 0 (omega arith))) in
      sum_of-slice_count conns
      ∙ ap u64 (
          nodes_sum-shards_sum sc x y some_shards size size' (addresses conns) sc.shards 0 once
            (omega arith) owned
          ∙ sym (sum_of-shard_links sc x y some_shards size size' sc.shards 0))
      ∙ whole x y links (size ∙ sym size') covers

-- Over connections to different nodes, among them the owner of each of the shards, that hold their
-- slices of two sets of all the words, the count of the sharded `IntersectStored` is the count over
-- the whole sets, and no node changes.
pub intersect_sharded_stored-and_count :
    (sc : ShardedCluster) (nodes : Nodes) (a b x y : List ℕ)
    → 0 < sc.shards
    → length x ≡ sc.words
    → length y ≡ sc.words
    → length a < 2 ^ 16
    → length b < 2 ^ 16
    → AreUnique (addresses sc.conns)
    → ((s : ℕ) → s < sc.shards → has_str (get_or sc.owners s []) (addresses sc.conns) ≡ true)
    → HoldsSlices sc nodes sc.conns a x
    → HoldsSlices sc nodes sc.conns b y
    → intersect_sharded_stored sc nodes a b ≡ (nodes, some (and_count x y))
unfolding intersect_sharded_stored gather_shards
intersect_sharded_stored-and_count sc nodes a b x y some_shards size size' short short' once owned h
      h' =
    let count = slice_count sc x y some_shards size size' in
    ap (λ (r : Nodes × List (Option ℕ)). (r.0, total 0 r.1))
      (ask_conns-slice_count sc x y some_shards size size' nodes a b sc.conns short short' h h')
    ∙ ap (λ (t : Option ℕ). (nodes, t))
        (total-sum_of count 0 sc.conns (omega arith)
          ∙ ap some (
              ap u64 {x = 0 + sum_of count sc.conns} {y = sum_of count sc.conns} (omega arith)
              ∙ slices_whole sc x y some_shards size size' sc.conns once owned))
