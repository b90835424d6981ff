-- ===== src/Addb/Kernel/Workers.antt =====
-- The workers of `ParallelSearchEngine`: whatever order they write in, together they leave the
-- matches of the whole batch, in the batch's order.
use mathlib.Core.List.{Perm, flatten, append-nil, append_assoc}
use native.Mathlib.Nat.{mul-le-mul_right}
use setrixdb.Base.{
  ℕ, zero, suc, ◌+◌, ◌-◌, ◌*◌, ◌/◌, ◌≤◌, ◌<◌, min, ◌≡◌, refl, sym, ◌∙◌, ap, true, List, [], ◌∷◌,
  ◌++◌, length, get_or, set, take, drop, replicate, select, elem, leb, ◌==◌, ==_refl, suc-==-zero,
  if◌then◌else◌, arith, inl, inr, Bool-cases, get_or_ext, length-set, get_or-set_self,
  get_or-set_ne, length-replicate, get_or-replicate, take_clip, length-drop, drop_all, take-empty,
  chunks, chunk-covers, length-chunks, flatten-chunks, get_or-chunks, flatten-map-select,
  get_or-map-select, length-map, map, elem-perm, unique, Below, u64_mod, lt_of_elem, select_none,
  select_ext,
}
use setrixdb.Addb.Kernel.{
  contains, search_part, launched, worker_result, run_workers, parallel_search_engine,
}
use setrixdb.Addb.Kernel.Scan.{contains-elem}
use setrixdb.Addb.Kernel.Merge.{merge_unique-unique}

search_part_lem :
    (part shard local : List ℕ)
    → search_part part shard local ≡ local ++ select (contains shard) part
unfolding search_part
search_part_lem [] shard local = sym (append-nil local)
search_part_lem (q ∷ part) shard local = elim (Bool-cases (contains shard q)) [
  | inl e ↦ rw e (
      search_part_lem part shard (local ++ q ∷ [])
      ∙ append_assoc local (q ∷ []) (select (contains shard) part))
  | inr e ↦ rw e (search_part_lem part shard local)
]

module _ (batch shard : List ℕ) (chunk : ℕ) where
  run_workers-length :
      (ws : List ℕ) (results : List (List ℕ))
      → length (run_workers batch shard chunk ws results) ≡ length results
  unfolding run_workers
  run_workers-length [] results = refl
  run_workers-length (w ∷ ws) results =
      run_workers-length ws (set results w (worker_result batch shard chunk w))
      ∙ length-set results w (worker_result batch shard chunk w)

  -- A slot holds its worker's result once that worker is among those that ran.
  run_workers-get_or :
      (ws : List ℕ) (results : List (List ℕ)) (i : ℕ)
      → i < length results
      → get_or (run_workers batch shard chunk ws results) i []
        ≡ (if elem i ws then worker_result batch shard chunk i else get_or results i [])
  unfolding run_workers
  run_workers-get_or [] results i h = refl
  run_workers-get_or (w ∷ ws) results i h =
      let r = worker_result batch shard chunk w in
      run_workers-get_or ws (set results w r) i (omega (arith, length-set results w r))
      ∙ elim (Bool-cases (w == i)) [
        | inl e ↦
            let same : w ≡ i = ground arith in
            rw (same, ==_refl i)
              (ground (arith, get_or-set_self results i (worker_result batch shard chunk i) []))
        | inr e ↦ rw (e, get_or-set_ne results w i r [] (ground arith))
      ]

  -- Each worker whose part is not empty is started.
  elem-launched :
      (left w i : ℕ)
      → w ≤ i
      → i < w + left
      → i * chunk < length batch
      → elem i (launched batch shard chunk left w) ≡ true
  unfolding launched
  elem-launched zero w i h p q = absurd (omega arith)
  elem-launched (suc left) w i h p q = elim (Bool-cases (leb (length batch) (w * chunk))) [
    | inl e ↦ absurd (grind (arith, mul-le-mul_right chunk h))
    | inr e ↦ rw e (elim (Bool-cases (w == i)) [
      | inl same ↦ rw same
      | inr ne ↦ rw ne (elem-launched left (w + 1) i (ground arith) (omega arith) q)
    ])
  ]

  part-take :
      (w : ℕ)
      → worker_result batch shard chunk w
        ≡ select (contains shard) (take chunk (drop (w * chunk) batch))
  unfolding worker_result
  part-take w =
      search_part_lem
        (take (min (w * chunk + chunk) (length batch) - w * chunk) (drop (w * chunk) batch)) shard
        []
      ∙ ap (select (contains shard)) (
          take_clip (min (w * chunk + chunk) (length batch) - w * chunk) chunk
            (drop (w * chunk) batch) (omega (arith, length-drop (w * chunk) batch)))

module _ (batch shard : List ℕ) (chunk workers : ℕ) (ws : List ℕ)
    (all : (i : ℕ) → elem i ws ≡ elem i (launched batch shard chunk workers 0)) where
  slots : List (List ℕ)
  slots = run_workers batch shard chunk ws (replicate workers [])

  slots-get_or :
      (i : ℕ)
      → i < workers
      → get_or slots i [] ≡ select (contains shard) (take chunk (drop (i * chunk) batch))
  unfolding slots
  slots-get_or i h =
      run_workers-get_or batch shard chunk ws (replicate workers []) i
        (omega (arith, length-replicate {A = List ℕ} workers []))
      ∙ elim (Bool-cases (elem i ws)) [
        | inl e ↦ rw e (part-take batch shard chunk i)
        | inr e ↦
            let idle : length batch ≤ i * chunk =
              ground (arith, all i, elem-launched batch shard chunk workers 0 i) in
            rw (
              e,
              drop_all (i * chunk) batch idle,
              take-empty {A = ℕ} chunk,
              get_or-replicate {A = List ℕ} workers i [],
            )
      ]

  length-slots : length slots ≡ workers
  unfolding slots
  length-slots =
      run_workers-length batch shard chunk ws (replicate workers []) ∙ length-replicate workers []

  slots-map : slots ≡ map (select (contains shard)) (chunks workers chunk batch)
  slots-map =
      get_or_ext [] slots (map (select (contains shard)) (chunks workers chunk batch))
        (length-slots
          ∙ sym (
              length-map (select (contains shard)) (chunks workers chunk batch)
              ∙ length-chunks workers chunk batch))
        (λ i h.
          let within : i < workers = omega (arith, length-slots) in
          slots-get_or i within
          ∙ sym (
              get_or-map-select (contains shard) (chunks workers chunk batch) i
              ∙ ap (select (contains shard)) (get_or-chunks workers chunk i batch within)))

  slots-flatten : length batch ≤ workers * chunk → flatten slots ≡ select (contains shard) batch
  slots-flatten h =
      ap flatten slots-map
      ∙ flatten-map-select (contains shard) (chunks workers chunk batch)
      ∙ ap (select (contains shard)) (flatten-chunks workers chunk batch h)

select-elem :
    (shard batch : List ℕ)
    → Below u64_mod shard
    → Below u64_mod batch
    → select (contains shard) batch ≡ select (λ q. elem q shard) batch
select-elem shard batch hs hb =
    select_ext (contains shard) (λ q. elem q shard) batch
      (λ q e. contains-elem shard q hs (lt_of_elem q u64_mod batch hb e))

-- On 64-bit IDs, with at least one worker and whatever order the workers come to their writes in,
-- the search returns the members of the batch that the shard holds, each once, in the batch's order.
pub parallel_search_engine-unique :
    (procs : ℕ) (schedule : List ℕ → List ℕ) (batch shard : List ℕ)
    → 0 < procs
    → ((ws : List ℕ) → Perm (schedule ws) ws)
    → Below u64_mod shard
    → Below u64_mod batch
    → parallel_search_engine procs schedule batch shard ≡ unique (select (λ q. elem q shard) batch)
unfolding parallel_search_engine slots
parallel_search_engine-unique procs schedule [] shard pos fair hs hb = refl
parallel_search_engine-unique procs schedule (b ∷ bs) [] pos fair hs hb =
    rw (suc-==-zero (length bs)) (ap unique (sym (select_none (b ∷ bs))))
parallel_search_engine-unique procs schedule (b ∷ bs) (s ∷ ss) pos fair hs hb =
    let batch = b ∷ bs in
    let shard = s ∷ ss in
    let workers = min procs (length batch) in
    let chunk = (length batch + workers - 1) / workers in
    let ws = schedule (launched batch shard chunk workers 0) in
    rw (suc-==-zero (length bs), suc-==-zero (length ss))
      (merge_unique-unique (run_workers batch shard chunk ws (replicate workers []))
        ∙ ap unique (
            slots-flatten batch shard chunk workers ws (λ i. elem-perm i (fair _))
              (chunk-covers (length batch) workers (omega arith)))
        ∙ ap unique (select-elem shard batch hs hb))
