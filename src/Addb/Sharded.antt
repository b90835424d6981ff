-- ===== src/Addb/Sharded.antt =====
-- internal/addb/shard.go: a space of IDs cut into ranges of equal length, each a bitset. A division by
-- zero and an index out of range panic: the outcome `none`. The number of shards is an `int` that is
-- not negative.
pub mod Laws
pub mod Counts
pub mod Parallel
use setrixdb.Base.{
  ℕ, zero, suc, ◌+◌, ◌-◌, ◌*◌, ◌/◌, ◌^◌, min, Bool, false, ◌||◌, ◌&&◌, Option, none, some, List, [],
  ◌∷◌, length, get_or, set, replicate, ltb, leb, ◌==◌, if◌then◌else◌, u64, sub64,
}
use setrixdb.Addb.Bitset.{Bitset, new_bitset, set_id, test, and_popcount}

pub record ShardedBitset : Type 0 where
  pub num_shards : ℕ
  pub shard_bits : ℕ
  pub shards : List Bitset

unfoldable pub new_sharded_bitset : ℕ → ℕ → Option ShardedBitset
new_sharded_bitset universe num_shards =
    let shard_bits = sub64 (u64 (universe + num_shards)) 1 / num_shards in
    if num_shards == 0
    then none
    else some (record {
      num_shards = num_shards;
      shard_bits = shard_bits;
      shards = replicate num_shards (new_bitset shard_bits);
    })

-- The result of `shardOf`; -1 is `outside`.
pub data Route : Type 0 where
  division_by_zero outside : Route
  to_shard : ℕ → Route

-- `int(…)` of a quotient from 2 ^ 63 on is negative.
unfoldable pub shard_of : ShardedBitset → ℕ → Route
shard_of s id =
    let sh = id / s.shard_bits in
    if s.shard_bits == 0
    then division_by_zero
    else (if leb (2 ^ 63) sh || leb s.num_shards sh then outside else to_shard sh)

-- `s.shards[sh]`; out of range a bitset without words, on which every access panics too.
abbrev pub shard_at : ShardedBitset → ℕ → Bitset
shard_at s sh = get_or s.shards sh (record { words = [] })

-- `id - uint64(sh)*s.ShardBits`
abbrev place_in : ShardedBitset → ℕ → ℕ → ℕ
place_in s sh id = sub64 id (u64 (sh * s.shard_bits))

put_shard : ShardedBitset → ℕ → Option Bitset → Option ShardedBitset
put_shard s sh none = none
put_shard s sh (some b) =
    some
      (record { num_shards = s.num_shards; shard_bits = s.shard_bits; shards = set s.shards sh b })

set_routed : ShardedBitset → ℕ → Route → Option ShardedBitset
set_routed s id division_by_zero = none
set_routed s id outside = some s
set_routed s id (to_shard sh) = put_shard s sh (set_id (shard_at s sh) (place_in s sh id))

unfoldable pub set_sharded : ShardedBitset → ℕ → Option ShardedBitset
unfolding shard_of put_shard set_routed
set_sharded s id = set_routed s id (shard_of s id)

has_routed : ShardedBitset → ℕ → Route → Option Bool
has_routed s id division_by_zero = none
has_routed s id outside = some false
has_routed s id (to_shard sh) = test (shard_at s sh) (place_in s sh id)

unfoldable pub has_sharded : ShardedBitset → ℕ → Option Bool
unfolding shard_of has_routed
has_sharded s id = has_routed s id (shard_of s id)

-- `s.shards[sh].Words`
unfoldable pub shard_words : ShardedBitset → ℕ → Option (List ℕ)
shard_words s sh = if ltb sh (length s.shards) then some (shard_at s sh).words else none

-- `for i := …; i < …; i++ { c += s.shards[i].AndPopcount(o.shards[i]) }` at `i`, with so many rounds
-- left. The counter is the bit pattern of an `int64`.
pub count_range : ShardedBitset → ShardedBitset → ℕ → ℕ → ℕ → Option ℕ
count_range s o zero i c = some c
count_range s o (suc left) i c =
    let rest =
      count_range s o left (i + 1) (u64 (c + and_popcount (shard_at s i) (shard_at o i))) in
    if ltb i (length s.shards) && ltb i (length o.shards) then rest else none

unfoldable pub intersect_count_serial : ShardedBitset → ShardedBitset → Option ℕ
unfolding count_range
intersect_count_serial s o = count_range s o s.num_shards 0 0

-- The `go` statements of the loop at worker `w`, with so many rounds left: the workers started.
launched : ℕ → ℕ → ℕ → ℕ → List ℕ
launched num chunk zero w = []
launched num chunk (suc left) w =
    if leb num (w * chunk) then [] else w ∷ launched num chunk left (w + 1)

-- `c` of worker `w`.
worker_count : ShardedBitset → ShardedBitset → ℕ → ℕ → Option ℕ
unfolding count_range
worker_count s o chunk w =
    let lo = w * chunk in let hi = min (lo + chunk) s.num_shards in count_range s o (hi - lo) lo 0

add_count : ℕ → Option ℕ → Option ℕ
add_count total none = none
add_count total (some c) = some (u64 (total + c))

-- `mu.Lock(); total += c; mu.Unlock()` by the workers in some order. A panic in one of them ends the
-- program.
add_counts : ShardedBitset → ShardedBitset → ℕ → List ℕ → Option ℕ → Option ℕ
add_counts s o chunk [] total = total
add_counts s o chunk (w ∷ ws) none = none
add_counts s o chunk (w ∷ ws) (some total) =
    add_counts s o chunk ws (add_count total (worker_count s o chunk w))

-- `procs` is GOMAXPROCS(0), and `schedule` the order in which the workers take the lock.
unfoldable pub intersect_count : ℕ → (List ℕ → List ℕ) → ShardedBitset → ShardedBitset → Option ℕ
unfolding launched worker_count add_count add_counts intersect_count_serial
intersect_count procs schedule s o =
    let workers = min procs s.num_shards in
    let chunk = (s.num_shards + workers - 1) / workers in
    if leb workers 1
    then intersect_count_serial s o
    else add_counts s o chunk (schedule (launched s.num_shards chunk workers 0)) (some 0)

byte_sum : List Bitset → ℕ → ℕ
byte_sum [] b = b
byte_sum (sh ∷ shards) b = byte_sum shards (b + length sh.words * 8)

unfoldable pub mem_bytes : ShardedBitset → ℕ
unfolding byte_sum
mem_bytes s = byte_sum s.shards 0
