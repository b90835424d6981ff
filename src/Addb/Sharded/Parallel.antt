-- ===== src/Addb/Sharded/Parallel.antt =====
-- The parallel count is the serial one, whatever order the workers take the lock in.
use mathlib.Core.List.{Perm, foldr}
use mathlib.Core.List.Perm
use native.Mathlib.Nat.{ℕ_set}
use setrixdb.Base.{
  ℕ, zero, suc, ◌+◌, ◌-◌, ◌*◌, ◌/◌, ◌≤◌, ◌<◌, min, ◌≡◌, refl, sym, ◌∙◌, ap, inl, inr, Bool-cases,
  some, List, [], ◌∷◌, leb, arith, u64, u64_mod, chunk-covers,
}
use setrixdb.Addb.Sharded.{
  ShardedBitset, count_range, intersect_count_serial, launched, worker_count, add_count, add_counts,
  intersect_count,
}
use setrixdb.Addb.Sharded.Laws.{IsWellFormed}
use setrixdb.Addb.Sharded.Counts.{range_count, range_count-add, count_range-range_count}

-- What worker `w` counts, when nothing wraps around.
abbrev part_count : ShardedBitset → ShardedBitset → ℕ → ℕ → ℕ
part_count s o chunk w =
    range_count s o (w * chunk) (min (w * chunk + chunk) s.num_shards - w * chunk)

abbrev add_part : ShardedBitset → ShardedBitset → ℕ → ℕ → ℕ → ℕ
add_part s o chunk w total = part_count s o chunk w + total

abbrev parts_count : ShardedBitset → ShardedBitset → ℕ → List ℕ → ℕ
parts_count s o chunk ws = foldr (add_part s o chunk) 0 ws

parts_count-perm :
    (s o : ShardedBitset) (chunk : ℕ) (ws vs : List ℕ)
    → Perm ws vs
    → parts_count s o chunk ws ≡ parts_count s o chunk vs
parts_count-perm s o chunk ws vs p =
    Perm.foldr-eq ℕ_set (add_part s o chunk) (λ a b t. omega arith) p 0

range_count_from :
    (s o : ShardedBitset) (i j left : ℕ)
    → (0 < left → i ≡ j)
    → range_count s o i left ≡ range_count s o j left
range_count_from s o i j zero h = refl
range_count_from s o i j (suc left) h =
    ap (λ (k : ℕ). range_count s o k (suc left)) (h (omega arith))

-- The workers started from `w` on count the shards from `w * chunk` on.
parts_count-launched :
    (s o : ShardedBitset) (chunk left w : ℕ)
    → parts_count s o chunk (launched s.num_shards chunk left w)
      ≡ range_count s o (w * chunk) (min (left * chunk) (s.num_shards - w * chunk))
unfolding launched
parts_count-launched s o chunk zero w =
    ap (range_count s o (w * chunk)) {x = 0} {y = min (0 * chunk) (s.num_shards - w * chunk)}
      (omega arith)
parts_count-launched s o chunk (suc left) w = elim (Bool-cases (leb s.num_shards (w * chunk))) [
  | inl e ↦ rw e (
      ap (range_count s o (w * chunk)) {x = 0}
        {y = min (suc left * chunk) (s.num_shards - w * chunk)} (ground arith))
  | inr e ↦
      let mine = min (w * chunk + chunk) s.num_shards - w * chunk in
      let others = min (left * chunk) (s.num_shards - (w + 1) * chunk) in
      let whole : min (suc left * chunk) (s.num_shards - w * chunk) ≡ mine + others =
        ground arith in
      rw (e, parts_count-launched s o chunk left (w + 1), whole)
        (sym (
          range_count-add s o (w * chunk) mine others
          ∙ ap (◌+◌ (range_count s o (w * chunk) mine)) (
              range_count_from s o (w * chunk + mine) ((w + 1) * chunk) others
                (λ some_left. omega arith))))
]

module _ (s o : ShardedBitset) (ok : IsWellFormed s) (ok' : IsWellFormed o)
    (same_num : o.num_shards ≡ s.num_shards) (same_bits : o.shard_bits ≡ s.shard_bits) where
  add_counts-parts_count :
      (chunk : ℕ) (ws : List ℕ) (total : ℕ)
      → total < u64_mod
      → add_counts s o chunk ws (some total) ≡ some (u64 (total + parts_count s o chunk ws))
  unfolding add_counts worker_count add_count
  add_counts-parts_count chunk [] total small = ap some (omega arith)
  add_counts-parts_count chunk (w ∷ ws) total small =
      let lo = w * chunk in
      let rounds = min (lo + chunk) s.num_shards - lo in
      let counted : count_range s o rounds lo 0 ≡ some (u64 (part_count s o chunk w)) =
        count_range-range_count s o ok ok' same_num same_bits rounds lo 0 (omega arith)
          (omega arith)
        ∙ ap some (omega arith) in
      rw counted (
        add_counts-parts_count chunk ws (u64 (total + u64 (part_count s o chunk w))) (omega arith)
        ∙ ap some (omega arith))

  -- Of two well-formed spaces with the same number of shards of the same length, the parallel count
  -- gives what the serial one gives, for every number of processors and whatever order the workers take
  -- the lock in.
  pub intersect_count-intersect_count_serial :
      (procs : ℕ) (schedule : List ℕ → List ℕ)
      → ((ws : List ℕ) → Perm (schedule ws) ws)
      → intersect_count procs schedule s o ≡ intersect_count_serial s o
  unfolding intersect_count intersect_count_serial
  intersect_count-intersect_count_serial procs schedule fair =
      elim (Bool-cases (leb (min procs s.num_shards) 1)) [
        | inl e ↦ rw e refl
        | inr e ↦
            let n = s.num_shards in
            let workers = min procs n in
            let chunk = (n + workers - 1) / workers in
            let started = launched n chunk workers 0 in
            let covered : n ≤ workers * chunk = chunk-covers n workers (ground arith) in
            let start : 0 * chunk ≡ 0 = omega arith in
            let all : min (workers * chunk) (n - 0 * chunk) ≡ n = omega arith in
            let serial =
              count_range-range_count s o ok ok' same_num same_bits n 0 0 (omega arith)
                (omega arith) in
            rw e (
              add_counts-parts_count chunk (schedule started) 0 (omega arith)
              ∙ ap (λ (t : ℕ). some (u64 (0 + t)))
                  (parts_count-perm s o chunk (schedule started) started (fair started)
                    ∙ parts_count-launched s o chunk workers 0)
              ∙ rw (all, start) (sym serial))
      ]
