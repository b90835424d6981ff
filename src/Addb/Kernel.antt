-- ===== src/Addb/Kernel.antt =====
-- internal/addb/search.go: the arithmetic kernel and the parallel batch search.
pub mod Scan
pub mod Merge
pub mod Workers
use setrixdb.Base.{
  ℕ, zero, suc, ◌+◌, ◌-◌, ◌*◌, ◌/◌, ◌^◌, bit_or, bit_xor, min, Bool, ◌||◌, List, [], ◌∷◌, ◌++◌,
  length, set, take, drop, replicate, elem, leb, ◌==◌, if◌then◌else◌, u64, complement, sub64,
}

pub record Shard : Type 0 where
  pub ids : List ℕ

-- `make` and `copy`: a new block with the same IDs.
unfoldable pub new_shard : List ℕ → Shard
new_shard ids = record { ids = ids }

-- `1 - ((x | (^x + 1)) >> 63)` with `x := v ^ q`.
pub equal_word : ℕ → ℕ → ℕ
equal_word v q = let x = bit_xor v q in sub64 1 (bit_or x (u64 (complement x + 1)) / 2 ^ 63)

contains_loop : ℕ → List ℕ → ℕ → ℕ
contains_loop found [] q = found
contains_loop found (v ∷ shard) q = contains_loop (bit_or found (equal_word v q)) shard q

unfoldable pub contains : List ℕ → ℕ → Bool
unfolding contains_loop equal_word
contains shard q = contains_loop 0 shard q == 1

-- `for _, p := range parts { for _, id := range p { … } }`, with the set `seen` and the slice `out`.
merge_part : List ℕ → List ℕ → List ℕ → List ℕ × List ℕ
merge_part [] seen out = (seen, out)
merge_part (id ∷ p) seen out =
    let added = merge_part p (id ∷ seen) (out ++ id ∷ []) in
    let skipped = merge_part p seen out in if elem id seen then skipped else added

merge_parts : List (List ℕ) → List ℕ → List ℕ → List ℕ
merge_parts [] seen out = out
merge_parts (p ∷ parts) seen out =
    let (seen', out') = merge_part p seen out in merge_parts parts seen' out'

unfoldable pub merge_unique : List (List ℕ) → List ℕ
unfolding merge_part merge_parts
merge_unique parts = merge_parts parts [] []

-- The body of a worker: the members of its part of the batch that the shard holds.
search_part : List ℕ → List ℕ → List ℕ → List ℕ
search_part [] shard local = local
search_part (q ∷ part) shard local =
    search_part part shard (if contains shard q then local ++ q ∷ [] else local)

module _ (batch shard : List ℕ) (chunk : ℕ) where
  -- The `go` statements of the loop at worker `w`, with so many rounds left: the workers started.
  launched : ℕ → ℕ → List ℕ
  launched zero w = []
  launched (suc left) w = if leb (length batch) (w * chunk) then [] else w ∷ launched left (w + 1)

  -- What worker `w` assigns to `results[w]`.
  worker_result : ℕ → List ℕ
  worker_result w =
      let lo = w * chunk in
      let hi = min (lo + chunk) (length batch) in
      search_part (take (hi - lo) (drop lo batch)) shard []

  -- The workers run in some order, each writing its own slot.
  run_workers : List ℕ → List (List ℕ) → List (List ℕ)
  run_workers [] results = results
  run_workers (w ∷ ws) results = run_workers ws (set results w (worker_result w))

-- `procs` is GOMAXPROCS(0), and `schedule` the order in which the workers come to their write.
unfoldable pub parallel_search_engine : ℕ → (List ℕ → List ℕ) → List ℕ → List ℕ → List ℕ
unfolding search_part launched worker_result run_workers merge_unique
parallel_search_engine procs schedule batch shard =
    if length batch == 0 || length shard == 0
    then []
    else (let workers = min procs (length batch) in
        let chunk = (length batch + workers - 1) / workers in
        merge_unique (
          run_workers batch shard chunk (schedule (launched batch shard chunk workers 0))
            (replicate workers [])))
