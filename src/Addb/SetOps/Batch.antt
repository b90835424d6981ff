-- ===== src/Addb/SetOps/Batch.antt =====
-- Binary search on a sorted shard, and the batch search built on it.
use mathlib.Core.List.{append-nil, append_assoc, Perm}
use setrixdb.Base.{
  ℕ, ◌≡◌, sym, ◌∙◌, ap, true, false, not, ◌&&◌, List, [], ◌∷◌, ◌++◌, elem, ◌==◌, if◌then◌else◌,
  arith, inl, inr, Bool-cases, IsSorted, select, unique, without, select-select, select_ext,
  unique-select, ==_iff, ==_refl,
}
use setrixdb.Std.Sort.{sort_slice-IsSorted, sort_slice-perm, elem-sort_slice}
use setrixdb.Std.Search.{sort_search_sorted}
use setrixdb.Addb.SetOps.{sort_shard, contains_sorted, search_batch_loop, search_sorted_batch}

pub sort_shard-IsSorted : (shard : List ℕ) → IsSorted (sort_shard shard)
unfolding sort_shard
sort_shard-IsSorted = sort_slice-IsSorted

pub elem-sort_shard : (q : ℕ) (shard : List ℕ) → elem q (sort_shard shard) ≡ elem q shard
unfolding sort_shard
elem-sort_shard = elem-sort_slice

-- Sorting a shard rearranges it into ascending order.
pub sort_shard_lem : (shard : List ℕ) → IsSorted (sort_shard shard) × Perm (sort_shard shard) shard
unfolding sort_shard
sort_shard_lem shard = (sort_slice-IsSorted shard, sort_slice-perm shard)

-- On an ascending shard, binary search finds an ID exactly when the shard holds it.
pub contains_sorted-elem :
    (sorted : List ℕ) (q : ℕ) → IsSorted sorted → contains_sorted sorted q ≡ elem q sorted
unfolding contains_sorted
contains_sorted-elem sorted q s = sym (sort_search_sorted sorted q s)

-- The members of the batch that the loop still adds.
abbrev found : List ℕ → List ℕ → List ℕ → List ℕ
found sorted seen batch = select (λ q. contains_sorted sorted q && not (elem q seen)) (unique batch)

found-seen :
    (sorted : List ℕ) (x : ℕ) (batch seen : List ℕ)
    → elem x seen ≡ true
    → found sorted seen (x ∷ batch) ≡ found sorted seen batch
found-seen sorted x batch seen e =
    let p = λ (q : ℕ). contains_sorted sorted q && not (elem q seen) in
    let out_of_reach : p x ≡ false = ground arith in
    rw out_of_reach (
      select-select p (λ q. not (q == x)) (unique batch)
      ∙ select_ext (λ q. not (q == x) && p q) p (unique batch)
          (λ q _. elim (Bool-cases (q == x)) [
            | inl s ↦ let same = (==_iff q x).0 s in rw (same, out_of_reach, ==_refl x)
            | inr d ↦ rw d
          ]))

found-new :
    (sorted : List ℕ) (x : ℕ) (batch seen : List ℕ)
    → elem x seen ≡ false
    → found sorted seen (x ∷ batch) ≡ (
        if contains_sorted sorted x
        then x ∷ found sorted (x ∷ seen) batch
        else found sorted (x ∷ seen) batch)
found-new sorted x batch seen e =
    let p = λ (q : ℕ). contains_sorted sorted q && not (elem q seen) in
    let rest : select p (without x (unique batch)) ≡ found sorted (x ∷ seen) batch =
      select-select p (λ q. not (q == x)) (unique batch)
      ∙ select_ext (λ q. not (q == x) && p q)
          (λ q. contains_sorted sorted q && not (elem q (x ∷ seen))) (unique batch)
          (λ q _. ground arith) in
    ground (arith, rest)

search_batch_loop-found :
    (sorted batch seen out : List ℕ)
    → search_batch_loop sorted batch seen out ≡ out ++ found sorted seen batch
search_batch_loop-found sorted [] seen out = unfold search_batch_loop in sym (append-nil out)
search_batch_loop-found sorted (x ∷ batch) seen out = elim (Bool-cases (elem x seen)) [
  | inl e ↦
      loop-seen e
      ∙ search_batch_loop-found sorted batch seen out
      ∙ ap (◌++◌ out) (sym (found-seen sorted x batch seen e))
  | inr e ↦
      loop-new e
      ∙ ground (
        arith,
        search_batch_loop-found sorted batch (x ∷ seen) (out ++ x ∷ []),
        search_batch_loop-found sorted batch (x ∷ seen) out,
        append_assoc out (x ∷ []) (found sorted (x ∷ seen) batch),
        found-new sorted x batch seen e,
      )
]
  where
    loop-seen :
        elem x seen ≡ true
        → search_batch_loop sorted (x ∷ batch) seen out ≡ search_batch_loop sorted batch seen out
    loop-seen e = unfold search_batch_loop in rw e

    loop-new :
        elem x seen ≡ false
        → search_batch_loop sorted (x ∷ batch) seen out
          ≡ search_batch_loop sorted batch
              (x ∷ seen)
              (if contains_sorted sorted x then out ++ x ∷ [] else out)
    loop-new e = unfold search_batch_loop in rw e

-- On an ascending shard the batch search returns the members of the batch that the shard holds,
-- each once, in the batch's order.
pub search_sorted_batch-unique :
    (sorted batch : List ℕ)
    → IsSorted sorted
    → search_sorted_batch sorted batch ≡ unique (select (λ q. elem q sorted) batch)
unfolding search_sorted_batch
search_sorted_batch-unique sorted batch s =
    search_batch_loop-found sorted batch [] []
    ∙ select_ext (λ q. contains_sorted sorted q && not (elem q [])) (λ q. elem q sorted)
        (unique batch) (λ q _. ground (arith, contains_sorted-elem sorted q s))
    ∙ sym (unique-select (λ q. elem q sorted) batch)
