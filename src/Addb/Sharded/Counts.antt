-- ===== src/Addb/Sharded/Counts.antt =====
-- The count of an intersection, shard by shard.
use native.Mathlib.Nat.{add-mul-div_right, add-mul-mod_self_right, mod-eq_of_lt, div-eq_of_lt}
use setrixdb.Base.{
  ℕ, zero, suc, ◌+◌, ◌-◌, ◌*◌, ◌/◌, ◌%◌, ◌≤◌, ◌<◌, min, ◌≡◌, refl, ◌∙◌, ap, Bool, ◌&&◌, some,
  length, lt→ltb, arith, u64, u64_mod,
}
use setrixdb.Std.Bits.{count_below, count_below_none, count_below_ext, count_below-add}
use setrixdb.Addb.Bitset.{and_popcount}
use setrixdb.Addb.Bitset.Laws.{both, and_popcount-count_below}
use setrixdb.Addb.Sharded.{ShardedBitset, shard_at, count_range, intersect_count_serial}
use setrixdb.Addb.Sharded.Laws.{IsWellFormed, member}

-- Whether both spaces have the member.
abbrev pub common : ShardedBitset → ShardedBitset → ℕ → Bool
common s o id = member s id && member o id

-- The members that shard `i` of both has, and those of so many shards from `i` on.
abbrev shard_count : ShardedBitset → ShardedBitset → ℕ → ℕ
shard_count s o i = count_below s.shard_bits (both (shard_at s i).words (shard_at o i).words)

abbrev pub range_count : ShardedBitset → ShardedBitset → ℕ → ℕ → ℕ
range_count s o i zero = 0
range_count s o i (suc left) = shard_count s o i + range_count s o (i + 1) left

pub range_count-add :
    (s o : ShardedBitset) (i m n : ℕ)
    → range_count s o i (m + n) ≡ range_count s o i m + range_count s o (i + m) n
range_count-add s o i zero n =
    let none_first : 0 + n ≡ n = omega arith in
    let here : i + 0 ≡ i = omega arith in rw (none_first, here) (omega arith)
range_count-add s o i (suc m) n =
    let one_more : suc m + n ≡ suc (m + n) = omega arith in
    let next : i + suc m ≡ i + 1 + m = omega arith in
    rw (one_more, next) (omega (arith, range_count-add s o (i + 1) m n))

-- Two well-formed spaces that are cut in the same way.
module _ (s o : ShardedBitset) (ok : IsWellFormed s) (ok' : IsWellFormed o)
    (same_num : o.num_shards ≡ s.num_shards) (same_bits : o.shard_bits ≡ s.shard_bits) where
  and_popcount-shard_count :
      (i : ℕ)
      → i < s.num_shards
      → and_popcount (shard_at s i) (shard_at o i) ≡ u64 (shard_count s o i)
  and_popcount-shard_count i h =
      let all = both (shard_at s i).words (shard_at o i).words in
      let digits = 64 * min (length (shard_at s i).words) (length (shard_at o i).words) in
      let extra = digits - s.shard_bits in
      let whole : digits ≡ s.shard_bits + extra = omega (arith, ok.room i h) in
      let none_past : count_below extra (λ q. all (s.shard_bits + q)) ≡ 0 =
        count_below_none extra (λ q. all (s.shard_bits + q))
          (λ q. ground (arith, ok.within i (s.shard_bits + q))) in
      and_popcount-count_below (shard_at s i) (shard_at o i)
      ∙ ap u64 (
          ap (λ (n : ℕ). count_below n all) whole
          ∙ count_below-add s.shard_bits extra all
          ∙ omega (arith, none_past))

  pub count_range-range_count :
      (left i c : ℕ)
      → left ≤ s.num_shards - i
      → c < u64_mod
      → count_range s o left i c ≡ some (u64 (c + range_count s o i left))
  unfolding count_range
  count_range-range_count zero i c h small = ap some (omega arith)
  count_range-range_count (suc left) i c h small =
      let here : i < s.num_shards = omega arith in
      let rest =
        count_range-range_count left (i + 1) (u64 (c + u64 (shard_count s o i))) (omega arith)
          (omega arith) in
      rw
        (
          and_popcount-shard_count i here,
          lt→ltb i (length s.shards) (omega (arith, ok.complete)),
          lt→ltb i (length o.shards) (omega (arith, ok'.complete)),
        )
        (rest ∙ ap some (omega arith))

  member-at :
      (i j : ℕ)
      → i < s.num_shards
      → j < s.shard_bits
      → common s o (j + i * s.shard_bits) ≡ both (shard_at s i).words (shard_at o i).words j
  member-at i j h p =
      let q : (j + i * s.shard_bits) / s.shard_bits ≡ i =
        add-mul-div_right j i ok.positive ∙ omega (arith, div-eq_of_lt p) in
      let r : (j + i * s.shard_bits) % s.shard_bits ≡ j =
        add-mul-mod_self_right j i s.shard_bits ∙ mod-eq_of_lt p in
      rw (same_bits, same_num, q, r, lt→ltb i s.num_shards h) refl

  range_count-count_below :
      (left i : ℕ)
      → i + left ≤ s.num_shards
      → range_count s o i left
        ≡ count_below (left * s.shard_bits) (λ j. common s o (j + i * s.shard_bits))
  range_count-count_below zero i h =
      ap (λ (n : ℕ). count_below n (λ j. common s o (j + i * s.shard_bits))) {x = 0}
        {y = 0 * s.shard_bits} (omega arith)
  range_count-count_below (suc left) i h =
      let bits = s.shard_bits in
      let first =
        count_below_ext bits (λ j. common s o (j + i * bits))
          (both (shard_at s i).words (shard_at o i).words) (λ j p. member-at i j (omega arith) p) in
      let rest =
        count_below_ext (left * bits) (λ j. common s o (bits + j + i * bits))
          (λ j. common s o (j + (i + 1) * bits))
          (λ j _.
            ap (common s o) {x = bits + j + i * bits} {y = j + (i + 1) * bits} (omega arith)) in
      let split =
        ap (λ (n : ℕ). count_below n (λ j. common s o (j + i * bits))) {x = suc left * bits}
          {y = bits + left * bits} (omega arith)
        ∙ count_below-add bits (left * bits) (λ j. common s o (j + i * bits)) in
      omega (arith, split, first, rest, range_count-count_below left (i + 1) (omega arith))

  -- Of two well-formed spaces with the same number of shards of the same length, the serial count does
  -- not panic, and is the number of IDs of the space that both have, as a 64-bit pattern.
  pub intersect_count_serial-count_below :
      intersect_count_serial s o
      ≡ some (u64 (count_below (s.num_shards * s.shard_bits) (common s o)))
  unfolding intersect_count_serial
  intersect_count_serial-count_below =
      let bits = s.shard_bits in
      let all =
        count_below_ext (s.num_shards * bits) (λ j. common s o (j + 0 * bits)) (common s o)
          (λ j _. ap (common s o) {x = j + 0 * bits} {y = j} (omega arith)) in
      count_range-range_count s.num_shards 0 0 (omega arith) (omega arith)
      ∙ ap some (omega (arith, all, range_count-count_below s.num_shards 0 (omega arith)))
