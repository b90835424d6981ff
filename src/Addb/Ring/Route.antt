-- ===== src/Addb/Ring/Route.antt =====
-- The position chosen in the sorted cache is the next one clockwise.
use setrixdb.Base.{
  ℕ, zero, suc, ◌≤◌, ◌<◌, ◌≡◌, sym, ◌∙◌, true, false, ◌&&◌, inl, inr, List, [], ◌∷◌, length, get_or,
  get_or_mono, elem, ltb, leb, ◌==◌, ==_refl, Bool-cases, arith, u64_mod, sub64, Below, IsSorted,
  lt_of_elem,
}
use setrixdb.Std.Search.{sort_search, IsLeast, sort_search-IsLeast, sort_search_sorted}
use setrixdb.Addb.Ring.{clockwise}

-- No position of the list is closer to `pos`, clockwise, than `p`.
abbrev pub NoCloser : ℕ → ℕ → List ℕ → Type 0
NoCloser pos p [] = Unit
NoCloser pos p (k ∷ ks) = (sub64 p pos ≤ sub64 k pos) × NoCloser pos p ks

pub NoCloser-of_all :
    (pos p : ℕ) (ks : List ℕ)
    → ((k : ℕ) → elem k ks ≡ true → sub64 p pos ≤ sub64 k pos)
    → NoCloser pos p ks
NoCloser-of_all pos p [] h = tt
NoCloser-of_all pos p (k ∷ ks) h =
    (h k (ground (arith, ==_refl k)), NoCloser-of_all pos p ks (λ k' e. h k' (ground arith)))

elem-get_or : (xs : List ℕ) (i : ℕ) → i < length xs → elem (get_or xs i 0) xs ≡ true
elem-get_or [] i h = absurd (omega arith)
elem-get_or (x ∷ xs) zero h = ground (arith, ==_refl x)
elem-get_or (x ∷ xs) (suc i) h = ground (arith, elem-get_or xs i (omega arith))

-- The least member at or after `pos` is chosen, or the least of all.
module _ (xs : List ℕ) (pos : ℕ) (sorted : IsSorted xs) (some_point : 0 < length xs)
    (small : Below u64_mod xs) (word : pos < u64_mod) where
  abbrev place : ℕ
  place = sort_search (length xs) (λ i. leb pos (get_or xs i 0))

  place-IsLeast : IsLeast (length xs) (λ i. leb pos (get_or xs i 0)) place
  place-IsLeast =
      sort_search-IsLeast (length xs) (λ i. leb pos (get_or xs i 0))
        (λ a b h p e. ground (arith, get_or_mono xs a b sorted h p))

  pub elem-clockwise : elem (clockwise xs pos) xs ≡ true
  unfolding clockwise
  elem-clockwise = elim (Bool-cases (place == length xs)) [
    | inl e ↦ rw e (elem-get_or xs 0 some_point)
    | inr e ↦ rw e (elem-get_or xs place (ground (arith, place-IsLeast.within)))
  ]

  clockwise-closest_at :
      (i : ℕ) → i < length xs → sub64 (clockwise xs pos) pos ≤ sub64 (get_or xs i 0) pos
  unfolding clockwise
  clockwise-closest_at i h =
      let word_i = lt_of_elem (get_or xs i 0) u64_mod xs small (elem-get_or xs i h) in
      elim (Bool-cases (place == length xs)) [
        | inl e ↦
            let least = get_or_mono xs 0 i sorted (omega arith) h in
            let before : leb pos (get_or xs i 0) ≡ false = place-IsLeast.before i (ground arith) in
            let before_0 : leb pos (get_or xs 0 0) ≡ false =
              place-IsLeast.before 0 (ground arith) in
            rw e (ground arith)
        | inr e ↦
            let inside : place < length xs = ground (arith, place-IsLeast.within) in
            let reached : leb pos (get_or xs place 0) ≡ true = place-IsLeast.holds inside in
            let word_p =
              lt_of_elem (get_or xs place 0) u64_mod xs small (elem-get_or xs place inside) in
            rw e (elim (Bool-cases (ltb i place)) [
              | inl earlier ↦
                  let before : leb pos (get_or xs i 0) ≡ false =
                    place-IsLeast.before i (ground arith) in
                  ground arith
              | inr later ↦
                  let after = get_or_mono xs place i sorted (ground arith) h in ground arith
            ])
      ]

  pub clockwise-closest : (k : ℕ) → elem k xs ≡ true → sub64 (clockwise xs pos) pos ≤ sub64 k pos
  clockwise-closest k e =
      let i = sort_search (length xs) (λ j. leb k (get_or xs j 0)) in
      let found : (ltb i (length xs) && get_or xs i 0 == k) ≡ true =
        sym (sort_search_sorted xs k sorted) ∙ e in
      let same : get_or xs i 0 ≡ k = ground arith in
      rw same at (clockwise-closest_at i (ground arith))
