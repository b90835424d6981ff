-- ===== src/Cluster/Sharded/Slices.antt =====
-- The slices of the nodes count, all together, what the whole counts.
use setrixdb.Base.{
  ltb, ◌==◌, if◌then◌else◌, Bool-cases, Bool-ext, length, get_or, drop, length-append,
  get_or-append_left, get_or-append_right, length-take, length-drop, bit, u64, str_eq, has_str,
  AreUnique, str_eq_refl, str_eq→≡, ℕ, zero, suc, ◌+◌, ◌-◌, ◌*◌, ◌/◌, ◌%◌, ◌≤◌, ◌<◌, min, ◌≡◌, refl,
  sym, ap, ap₂, ◌∙◌, inl, inr, true, false, ◌&&◌, some, List, [], ◌∷◌, ◌++◌, arith,
}
use setrixdb.Std.Bits.{count_below, count_below_ext, count_below-add}
use setrixdb.Addb.Bitset.Laws.{has_id, both}
use setrixdb.Cluster.{and_count}
use setrixdb.Cluster.Coordinator.{Link}
use setrixdb.Cluster.Coordinator.Answers.{and_count-count_below}
use setrixdb.Cluster.Coordinator.Loading.{part}
use setrixdb.Cluster.Coordinator.Intersect.{Covers, sum_of}
use setrixdb.Cluster.Coordinator.Dialling.{div_mono}
use setrixdb.Cluster.Sharded.{ShardedCluster, words_of_shard, slice_from}
use native.Mathlib.Nat.{mul-le-mul_right, mul-div_cancel_left, add-mul}

has_id-append_left :
    (xs zs : List ℕ) (q : ℕ) → q < 64 * length xs → has_id (xs ++ zs) q ≡ has_id xs q
unfolding has_id
has_id-append_left xs zs q h =
    ap (λ (w : ℕ). bit w (q % 64) == 1) (get_or-append_left xs zs (q / 64) 0 (omega arith))

has_id-append_right :
    (xs zs : List ℕ) (q : ℕ) → has_id (xs ++ zs) (64 * length xs + q) ≡ has_id zs q
unfolding has_id
has_id-append_right xs zs q =
    let place : (64 * length xs + q) / 64 ≡ length xs + q / 64 = omega arith in
    let digit : (64 * length xs + q) % 64 ≡ q % 64 = omega arith in
    rw (place, digit) (ap (λ (w : ℕ). bit w (q % 64) == 1) (get_or-append_right xs zs (q / 64) 0))

-- The count over two pieces put together.
and_count-append :
    (xs ys zs ws : List ℕ)
    → length xs ≡ length ys
    → length zs ≡ length ws
    → and_count (xs ++ zs) (ys ++ ws) ≡ u64 (and_count xs ys + and_count zs ws)
and_count-append xs ys zs ws same same' =
    let n = length xs in
    let m = length zs in
    let p = both (xs ++ zs) (ys ++ ws) in
    let size : min (length (xs ++ zs)) (length (ys ++ ws)) ≡ n + m =
      omega (arith, length-append xs zs, length-append ys ws) in
    let first : count_below (64 * n) p ≡ count_below (64 * n) (both xs ys) =
      count_below_ext (64 * n) p (both xs ys) (λ q h.
        ap₂ ◌&&◌ (has_id-append_left xs zs q h) (has_id-append_left ys ws q (omega arith))) in
    let place : 64 * length ys ≡ 64 * n = omega arith in
    let second : count_below (64 * m) (λ q. p (64 * n + q)) ≡ count_below (64 * m) (both zs ws) =
      count_below_ext (64 * m) (λ q. p (64 * n + q)) (both zs ws)
        (λ q h.
          ap₂ ◌&&◌ (has_id-append_right xs zs q) (
            ap (λ (k : ℕ). has_id (ys ++ ws) (k + q)) (sym place) ∙ has_id-append_right ys ws q)) in
    let front = and_count-count_below xs ys in
    let front_size : min (length xs) (length ys) ≡ n = omega arith in
    let back = and_count-count_below zs ws in
    let back_size : min (length zs) (length ws) ≡ m = omega arith in
    let split : count_below (64 * (n + m)) p
        ≡ count_below (64 * n) p + count_below (64 * m) (λ q. p (64 * n + q)) =
      ap (λ (k : ℕ). count_below k p) {x = 64 * (n + m)} {y = 64 * n + 64 * m} (omega arith)
      ∙ count_below-add (64 * n) (64 * m) p in
    let front' : and_count xs ys ≡ u64 (count_below (64 * n) (both xs ys)) =
      front ∙ ap (λ (k : ℕ). u64 (count_below (64 * k) (both xs ys))) front_size in
    let back' : and_count zs ws ≡ u64 (count_below (64 * m) (both zs ws)) =
      back ∙ ap (λ (k : ℕ). u64 (count_below (64 * k) (both zs ws))) back_size in
    and_count-count_below (xs ++ zs) (ys ++ ws)
    ∙ ap (λ (k : ℕ). u64 (count_below (64 * k) p)) size
    ∙ omega (arith, split, first, second, front', back')

str_eq_sym : (s t : List ℕ) → str_eq s t ≡ str_eq t s
str_eq_sym s t =
    Bool-ext (str_eq s t) (str_eq t s)
      (λ h. ap (λ (w : List ℕ). str_eq t w) (str_eq→≡ s t h) ∙ str_eq_refl t)
      (λ h. ap (λ (w : List ℕ). str_eq s w) (str_eq→≡ t s h) ∙ str_eq_refl s)

module _ (sc : ShardedCluster) (x y : List ℕ) (some_shards : 0 < sc.shards)
    (size : length x ≡ sc.words) (size' : length y ≡ sc.words) where
  -- The words of a shard, as those of a link.
  abbrev pub shard : ℕ → Link
  shard s = record { node = 0; lo = s * sc.words / sc.shards; hi = (s + 1) * sc.words / sc.shards }

  abbrev pub shard_count : ℕ → ℕ
  shard_count s = and_count (part x (shard s)) (part y (shard s))

  -- The sum over the shards of a node.
  abbrev pub node_sum : List ℕ → ℕ → ℕ → ℕ
  node_sum node zero s = 0
  node_sum node (suc left) s =
      (if str_eq (get_or sc.owners s []) node then shard_count s else 0)
      + node_sum node left (s + 1)

  shard_end : (s : ℕ) → s < sc.shards → (shard s).hi ≤ sc.words
  shard_end s h =
      let last : sc.shards * sc.words / sc.shards ≡ sc.words =
        mul-div_cancel_left sc.words some_shards in
      omega (
        arith,
        last,
        div_mono ((s + 1) * sc.words) (sc.shards * sc.words) sc.shards some_shards
            (mul-le-mul_right sc.words (omega arith)),
      )

  abbrev pub Slices : List ℕ → ℕ → ℕ → Type 0
  Slices node left s =
      (a : List ℕ) × (b : List ℕ) × (slice_from sc x node left s ≡ some a)
      × (slice_from sc y node left s ≡ some b)
      × (length a ≡ length b)
      × (and_count a b ≡ u64 (node_sum node left s))

  pub slice_from-node_sum : (node : List ℕ) (left s : ℕ) → s + left ≤ sc.shards → Slices node left s
  unfolding slice_from words_of_shard
  slice_from-node_sum node zero s h = ([], [], refl, refl, refl, and_count-count_below [] [])
  slice_from-node_sum node (suc left) s h =
      let (a, b, run, run', same, count) = slice_from-node_sum node left (s + 1) (omega arith) in
      let inside = shard_end s (omega arith) in
      let l = shard s in
      let n = l.hi - l.lo in
      let same_parts : length (part x l) ≡ length (part y l) = omega (
        arith,
        size,
        size',
        length-take n (drop l.lo x),
        length-take n (drop l.lo y),
        length-drop l.lo x,
        length-drop l.lo y,
      ) in
      let fits : ltb (length x) l.hi ≡ false = ground (arith, size) in
      let fits' : ltb (length y) l.hi ≡ false = ground (arith, size') in
      elim (Bool-cases (str_eq (get_or sc.owners s []) node)) [
        | inl own ↦ (
          part x l ++ a,
          part y l ++ b,
          rw (own, fits, run) refl,
          rw (own, fits', run') refl,
          omega (arith, length-append (part x l) a, length-append (part y l) b, same, same_parts),
          rw own
              (and_count-append (part x l) (part y l) a b same_parts same ∙ omega (arith, count)),
        )
        | inr other ↦ (
          a,
          b,
          rw (other, run) refl,
          rw (other, run') refl,
          same,
          rw other (count ∙ omega arith),
        )
      ]

  -- The sum over the shards of all the nodes.
  abbrev pub nodes_sum : List (List ℕ) → ℕ → ℕ → ℕ
  nodes_sum [] left s = 0
  nodes_sum (node ∷ addrs) left s = node_sum node left s + nodes_sum addrs left s

  abbrev pub shards_sum : ℕ → ℕ → ℕ
  shards_sum zero s = 0
  shards_sum (suc left) s = shard_count s + shards_sum left (s + 1)

  abbrev owner_sum : List (List ℕ) → List ℕ → ℕ → ℕ
  owner_sum [] owner count = 0
  owner_sum (node ∷ addrs) owner count =
      (if str_eq owner node then count else 0) + owner_sum addrs owner count

  nodes_sum-zero : (addrs : List (List ℕ)) (s : ℕ) → nodes_sum addrs 0 s ≡ 0
  nodes_sum-zero [] s = refl
  nodes_sum-zero (node ∷ addrs) s = omega (arith, nodes_sum-zero addrs s)

  nodes_sum-suc :
      (addrs : List (List ℕ)) (left s : ℕ)
      → nodes_sum addrs (suc left) s
        ≡ owner_sum addrs (get_or sc.owners s []) (shard_count s) + nodes_sum addrs left (s + 1)
  nodes_sum-suc [] left s = omega arith
  nodes_sum-suc (node ∷ addrs) left s = omega (arith, nodes_sum-suc addrs left s)

  owner_sum-none :
      (addrs : List (List ℕ)) (owner : List ℕ) (count : ℕ)
      → has_str owner addrs ≡ false
      → owner_sum addrs owner count ≡ 0
  owner_sum-none [] owner count h = refl
  owner_sum-none (node ∷ addrs) owner count h =
      ground (arith, str_eq_sym owner node, owner_sum-none addrs owner count)

  owner_sum-once :
      (addrs : List (List ℕ)) (owner : List ℕ) (count : ℕ)
      → AreUnique addrs
      → has_str owner addrs ≡ true
      → owner_sum addrs owner count ≡ count
  owner_sum-once [] owner count u h = absurd (cc)
  owner_sum-once (node ∷ addrs) owner count u h = elim (Bool-cases (str_eq owner node)) [
    | inl e ↦
        let same : owner ≡ node = str_eq→≡ owner node e in
        let others : owner_sum addrs owner count ≡ 0 =
          owner_sum-none addrs owner count (rw same u.0) in
        rw e (omega (arith, others))
    | inr e ↦
        let later : has_str owner addrs ≡ true = ground (arith, str_eq_sym owner node) in
        rw e (omega (arith, owner_sum-once addrs owner count u.1 later))
  ]

  pub nodes_sum-shards_sum :
      (addrs : List (List ℕ)) (left s : ℕ)
      → AreUnique addrs
      → s + left ≤ sc.shards
      → ((t : ℕ) → t < sc.shards → has_str (get_or sc.owners t []) addrs ≡ true)
      → nodes_sum addrs left s ≡ shards_sum left s
  nodes_sum-shards_sum addrs zero s u h owned = nodes_sum-zero addrs s
  nodes_sum-shards_sum addrs (suc left) s u h owned = omega (
    arith,
    nodes_sum-suc addrs left s,
    owner_sum-once addrs (get_or sc.owners s []) (shard_count s) u (owned s (omega arith)),
    nodes_sum-shards_sum addrs left (s + 1) u (omega arith) owned,
  )

  pub shard_links : ℕ → ℕ → List Link
  shard_links zero s = []
  shard_links (suc left) s = shard s ∷ shard_links left (s + 1)

  pub sum_of-shard_links :
      (left s : ℕ)
      → sum_of (λ l. and_count (part x l) (part y l)) (shard_links left s) ≡ shards_sum left s
  unfolding shard_links
  sum_of-shard_links zero s = refl
  sum_of-shard_links (suc left) s = ap (◌+◌ (shard_count s)) (sum_of-shard_links left (s + 1))

  pub Covers-shard_links :
      (left s : ℕ)
      → s + left ≡ sc.shards
      → Covers (s * sc.words / sc.shards) sc.words (shard_links left s)
  unfolding shard_links
  Covers-shard_links zero s h =
      let last : s ≡ sc.shards = omega arith in rw last (mul-div_cancel_left sc.words some_shards)
  Covers-shard_links (suc left) s h = (
    refl,
    div_mono (s * sc.words) ((s + 1) * sc.words) sc.shards some_shards
        (omega (arith, add-mul s 1 sc.words)),
    shard_end s (omega arith),
    Covers-shard_links left (s + 1) (omega arith),
  )
