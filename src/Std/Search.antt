-- ===== src/Std/Search.antt =====
-- `sort.Search(n, f)`: the least index in [0, n) at which `f` holds, or n, by bisection.
use setrixdb.Base.{
  ℕ, zero, suc, ◌+◌, ◌/◌, ◌≤◌, ◌<◌, ◌≡◌, Bool, true, false, inl, inr, arith, ltb, ltb→lt,
  Bool-cases, List, length, get_or, leb, ◌==◌, ◌&&◌, elem, IsSorted, get_or_mono, elem_at,
}

-- `for i < j { h := (i+j)/2; if !f(h) { i = h+1 } else { j = h } }; return i`
search_loop : ℕ → (ℕ → Bool) → ℕ → ℕ → ℕ
search_loop zero f i j = i
search_loop (suc fuel) f i j = elim (ltb i j) [
  | true ↦ elim (f ((i + j) / 2)) [
    | true ↦ search_loop fuel f i ((i + j) / 2)
    | false ↦ search_loop fuel f ((i + j) / 2 + 1) j
  ]
  | false ↦ i
]

-- Each round shortens [i, j), so `n` rounds are enough.
unfoldable pub sort_search : ℕ → (ℕ → Bool) → ℕ
unfolding search_loop
sort_search n f = search_loop n f 0 n

module _ (fuel : ℕ) (f : ℕ → Bool) (i j : ℕ) where
  search_loop_left :
      i < j
      → f ((i + j) / 2) ≡ true
      → search_loop (suc fuel) f i j ≡ search_loop fuel f i ((i + j) / 2)
  unfolding search_loop
  search_loop_left h e = ground arith

  search_loop_right :
      i < j
      → f ((i + j) / 2) ≡ false
      → search_loop (suc fuel) f i j ≡ search_loop fuel f ((i + j) / 2 + 1) j
  unfolding search_loop
  search_loop_right h e = ground arith

  search_loop_done : j ≤ i → search_loop (suc fuel) f i j ≡ i
  unfolding search_loop
  search_loop_done h = ground arith

-- Where `f` turns from false to true, if at all.
pub record IsLeast (n : ℕ) (f : ℕ → Bool) (k : ℕ) : Type 0 where
  pub within : k ≤ n
  pub before : (i : ℕ) → i < k → f i ≡ false
  pub holds : k < n → f k ≡ true

module _ (n : ℕ) (f : ℕ → Bool) (mono : (a b : ℕ) → a ≤ b → b < n → f a ≡ true → f b ≡ true) where
  false_below : (a b : ℕ) → a ≤ b → b < n → f b ≡ false → f a ≡ false
  false_below a b h p e = elim (Bool-cases (f a)) [
    | inl t ↦ ground (arith, mono a b h p t)
    | inr t ↦ t
  ]

  search_loop-IsLeast :
      (fuel i j : ℕ)
      → j ≤ i + fuel
      → i ≤ j
      → j ≤ n
      → ((a : ℕ) → a < i → f a ≡ false)
      → (j < n → f j ≡ true)
      → IsLeast n f (search_loop fuel f i j)
  unfolding search_loop
  search_loop-IsLeast zero i j enough h p lo hi = record {
    within = omega arith;
    before = lo;
    holds = λ q. let e : i ≡ j = omega arith in rw e (hi (omega arith));
  }
  search_loop-IsLeast (suc fuel) i j enough h p lo hi = elim (Bool-cases (ltb i j)) [
    | inl open_range ↦
        let less : i < j = ltb→lt i j open_range in
        elim (Bool-cases (f ((i + j) / 2))) [
          | inl e ↦ rw (search_loop_left fuel f i j less e) (
              search_loop-IsLeast fuel i ((i + j) / 2) (omega arith) (omega arith) (omega arith) lo
                (λ q. e))
          | inr e ↦ rw (search_loop_right fuel f i j less e) (
              search_loop-IsLeast fuel ((i + j) / 2 + 1) j (omega arith) (omega arith) p
                (λ a q. false_below a ((i + j) / 2) (omega arith) (omega arith) e) hi)
        ]
    | inr closed ↦ rw (search_loop_done fuel f i j (ground arith)) (record {
      within = omega arith;
      before = lo;
      holds = λ q. let e : i ≡ j = ground arith in rw e (hi (omega arith));
    })
  ]

  pub sort_search-IsLeast : IsLeast n f (sort_search n f)
  unfolding sort_search
  sort_search-IsLeast =
      search_loop-IsLeast n 0 n (omega arith) (omega arith) (omega arith)
        (λ a q. absurd (omega arith)) (λ q. absurd (omega arith))

-- On an ascending list, the place at which `q` would stand.
pub sort_search_sorted :
    (xs : List ℕ) (q : ℕ)
    → IsSorted xs
    → let k = sort_search (length xs) (λ i. leb q (get_or xs i 0)) in
      elem q xs ≡ (ltb k (length xs) && get_or xs k 0 == q)
sort_search_sorted xs q s =
    let found =
      sort_search-IsLeast (length xs) (λ i. leb q (get_or xs i 0))
        (λ a b h p e. ground (arith, get_or_mono xs a b s h p)) in
    elem_at q xs (sort_search (length xs) (λ i. leb q (get_or xs i 0))) s found.within
      (λ i p. ground (arith, found.before i p)) (λ p. ground (arith, found.holds p))
