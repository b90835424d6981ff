-- ===== src/Addb/Agreement.antt =====
-- internal/addb: the two batch searches give the same answer.
use mathlib.Core.List.{Perm}
use setrixdb.Base.{ℕ, ◌<◌, ◌≡◌, sym, ◌∙◌, ap, List, u64_mod, elem, Below, select_ext, unique}
use setrixdb.Addb.Kernel.{parallel_search_engine}
use setrixdb.Addb.Kernel.Workers.{parallel_search_engine-unique}
use setrixdb.Addb.SetOps.{sort_shard, search_sorted_batch}
use setrixdb.Addb.SetOps.Batch.{search_sorted_batch-unique, sort_shard-IsSorted, elem-sort_shard}

-- On 64-bit IDs, with at least one worker and whatever order the workers come to their writes in,
-- the parallel search of a shard returns the same list as the batch search of the sorted shard.
pub parallel_search_engine-search_sorted_batch :
    (procs : ℕ) (schedule : List ℕ → List ℕ) (batch shard : List ℕ)
    → 0 < procs
    → ((ws : List ℕ) → Perm (schedule ws) ws)
    → Below u64_mod shard
    → Below u64_mod batch
    → parallel_search_engine procs schedule batch shard
      ≡ search_sorted_batch (sort_shard shard) batch
parallel_search_engine-search_sorted_batch procs schedule batch shard some_worker fair small
      small' =
    parallel_search_engine-unique procs schedule batch shard some_worker fair small small'
    ∙ ap unique (
        select_ext (λ q. elem q shard) (λ q. elem q (sort_shard shard)) batch
          (λ q e. sym (elem-sort_shard q shard)))
    ∙ sym (search_sorted_batch-unique (sort_shard shard) batch (sort_shard-IsSorted shard))
