-- ===== src/Examples/Engine.antt =====
-- internal/addb's searches, intersections, sparse sets and synonyms, at small inputs.
use mathlib.Core.List.{reverse, reverse_perm}
use setrixdb.Base.{ℕ, ◌≡◌, List, [], ◌∷◌, arith, u64_mod, Below, IsSorted}
use setrixdb.Addb.Kernel.{parallel_search_engine}
use setrixdb.Addb.Kernel.Workers.{parallel_search_engine-unique}
use setrixdb.Addb.Agreement.{parallel_search_engine-search_sorted_batch}
use setrixdb.Addb.SetOps.{sort_shard, search_sorted_batch}
use setrixdb.Addb.Synonyms.{SynonymEntry}

abbrev shard : List ℕ
shard = 12 ∷ 3 ∷ 7 ∷ []

abbrev batch : List ℕ
batch = 7 ∷ 3 ∷ 7 ∷ 9 ∷ []

shard-Below : Below u64_mod shard
shard-Below = ground arith

batch-Below : Below u64_mod batch
batch-Below = ground arith

parallel_search_engine-unique_example : parallel_search_engine 2 reverse batch shard ≡ 7 ∷ 3 ∷ []
parallel_search_engine-unique_example =
    parallel_search_engine-unique 2 reverse batch shard (omega arith) (λ ws. reverse_perm ws)
      shard-Below batch-Below

parallel_search_engine-search_sorted_batch_example :
    parallel_search_engine 3 reverse batch shard ≡ search_sorted_batch (sort_shard shard) batch
parallel_search_engine-search_sorted_batch_example =
    parallel_search_engine-search_sorted_batch 3 reverse batch shard (omega arith)
      (λ ws. reverse_perm ws) shard-Below batch-Below

abbrev lower : List ℕ
lower = 2 ∷ 3 ∷ 5 ∷ 8 ∷ []

abbrev upper : List ℕ
upper = 3 ∷ 8 ∷ 9 ∷ []

lower-IsSorted : IsSorted lower
lower-IsSorted = ground arith

upper-IsSorted : IsSorted upper
upper-IsSorted = ground arith

abbrev entries : List SynonymEntry
entries =
    record { term = 5; synonyms = 50 ∷ 51 ∷ [] } ∷ record { term = 6; synonyms = 60 ∷ [] } ∷ []
