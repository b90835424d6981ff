-- ===== src/Addb/Bitset/Laws.antt =====
-- A bitset is the set of the IDs whose digit is 1.
use setrixdb.Base.{
  ℕ, zero, suc, ◌+◌, ◌*◌, ◌/◌, ◌%◌, ◌^◌, ◌≤◌, ◌<◌, min, bit_and, bit_or, ◌≡◌, ◌∙◌, ap, Bool, false,
  ◌||◌, ◌&&◌, none, some, List, [], ◌∷◌, length, get_or, set, lt→ltb, ltb, if◌then◌else◌, ◌==◌,
  arith, inl, inr, Bool-cases, u64, u64_mod, bit, bit-bit_and, bit-of_zero, bit_and-two_pow_test,
  bit-set_bit, bit_and_mask, get_or-set_self, get_or-set_ne, get_or-replicate, length-replicate,
  length-set, bit-le_one,
}
use setrixdb.Std.Bits.{
  ones_count64, ones_count64-count_below, count_below, count_below_ext, count_below-add,
}
use setrixdb.Addb.Bitset.{Bitset, new_bitset, set_id, test, count_loop, and_popcount}

-- Membership, as the specification has it: false out of range.
unfoldable pub has_id : List ℕ → ℕ → Bool
has_id words id = bit (get_or words (id / 64) 0) (id % 64) == 1

-- Whether the bitset has room for the ID.
abbrev pub Fits : List ℕ → ℕ → Type 0
Fits words id = id / 64 < length words

pub shift_count : (id : ℕ) → bit_and id 63 ≡ id % 64
shift_count id = bit_and_mask 6 id

-- `Test` reads membership for the IDs below 64 times the number of words, and panics for all others.
pub test-has_id :
    (b : Bitset) (id : ℕ)
    → test b id ≡ (if ltb id (64 * length b.words) then some (has_id b.words id) else none)
unfolding test has_id
test-has_id b id =
    rw (shift_count id, bit_and-two_pow_test (get_or b.words (id / 64) 0) (id % 64)) (ground arith)

abbrev pub written : List ℕ → ℕ → List ℕ
written words id = set words (id / 64) (bit_or (get_or words (id / 64) 0) (2 ^ (id % 64)))

pub has_id-written :
    (words : List ℕ) (id : ℕ)
    → Fits words id
    → (j : ℕ) → has_id (written words id) j ≡ (id == j || has_id words j)
unfolding has_id
has_id-written words id h j =
    let w = get_or words (id / 64) 0 in
    let w' = bit_or w (2 ^ (id % 64)) in
    elim (Bool-cases (id / 64 == j / 64)) [
      | inl e ↦
          let same : j / 64 ≡ id / 64 = ground arith in
          rw (same, get_or-set_self words (id / 64) w' 0 h, bit-set_bit w (id % 64) (j % 64))
            (ground arith)
      | inr e ↦ rw (get_or-set_ne words (id / 64) (j / 64) w' 0 (ground arith)) (ground arith)
    ]

-- In range, `Set` adds that one ID and keeps the capacity.
pub has_id-set_id :
    (b : Bitset) (id : ℕ)
    → Fits b.words id
    → (b' : Bitset) × (set_id b id ≡ some b')
      × (length b'.words ≡ length b.words)
      × ((j : ℕ) → has_id b'.words j ≡ (id == j || has_id b.words j))
unfolding set_id
has_id-set_id b id h = (
  record { words = written b.words id },
  rw (lt→ltb (id / 64) (length b.words) h, shift_count id),
  length-set b.words (id / 64) (bit_or (get_or b.words (id / 64) 0) (2 ^ (id % 64))),
  has_id-written b.words id h,
)

-- A new bitset has room for the IDs up to the given one, and no member.
pub has_id-new_bitset :
    (max_id id : ℕ)
    → id ≤ max_id
    → Fits (new_bitset max_id).words id × (has_id (new_bitset max_id).words id ≡ false)
unfolding new_bitset has_id
has_id-new_bitset max_id id h = (
  omega (arith, length-replicate {A = ℕ} (max_id / 64 + 1) 0),
  rw (get_or-replicate {A = ℕ} (max_id / 64 + 1) (id / 64) 0, bit-of_zero (id % 64)),
)

-- The members of a word, from its place in the slice.
pub has_id-word :
    (words : List ℕ) (i j : ℕ)
    → j < 64
    → has_id words (64 * i + j) ≡ (bit (get_or words i 0) j == 1)
unfolding has_id
has_id-word words i j h =
    let q : (64 * i + j) / 64 ≡ i = omega arith in
    let r : (64 * i + j) % 64 ≡ j = omega arith in rw (q, r)

-- Whether both slices have the member.
abbrev pub both : List ℕ → List ℕ → ℕ → Bool
both a b id = has_id a id && has_id b id

min_test : (x y : ℕ) → x ≤ 1 → y ≤ 1 → (min x y == 1) ≡ (x == 1 && y == 1)
min_test x y p q = ground arith

word_count :
    (a b : List ℕ) (i : ℕ)
    → ones_count64 (bit_and (get_or a i 0) (get_or b i 0))
      ≡ count_below 64 (λ j. both a b (64 * i + j))
word_count a b i =
    ones_count64-count_below (bit_and (get_or a i 0) (get_or b i 0))
    ∙ count_below_ext 64 (λ j. bit (bit_and (get_or a i 0) (get_or b i 0)) j == 1)
        (λ j. both a b (64 * i + j))
        (λ j h.
          rw (has_id-word a i j h, has_id-word b i j h, bit-bit_and (get_or a i 0) (get_or b i 0) j)
            (min_test (bit (get_or a i 0) j) (bit (get_or b i 0) j) (bit-le_one _ j)
              (bit-le_one _ j)))

count_loop_lem :
    (a b : List ℕ) (left i c : ℕ)
    → c < u64_mod
    → count_loop a b left i c ≡ u64 (c + count_below (64 * left) (λ j. both a b (64 * i + j)))
unfolding count_loop
count_loop_lem a b zero i c h = omega arith
count_loop_lem a b (suc left) i c h =
    let first = count_below 64 (λ j. both a b (64 * i + j)) in
    let rest = count_below (64 * left) (λ j. both a b (64 * (i + 1) + j)) in
    let split : count_below (64 * suc left) (λ j. both a b (64 * i + j)) ≡ first + rest =
      ap (λ (n : ℕ). count_below n (λ j. both a b (64 * i + j))) {x = 64 * suc left}
        {y = 64 + 64 * left} (omega arith)
      ∙ count_below-add 64 (64 * left) (λ j. both a b (64 * i + j))
      ∙ ap (◌+◌ first) (
          count_below_ext (64 * left) (λ j. both a b (64 * i + (64 + j)))
            (λ j. both a b (64 * (i + 1) + j))
            (λ j _. ap (both a b) {x = 64 * i + (64 + j)} {y = 64 * (i + 1) + j} (omega arith))) in
    rw (word_count a b i)
      (count_loop_lem a b left (i + 1) (u64 (c + first)) (omega arith) ∙ omega (arith, split))

-- The loop from the first words on.
pub count_loop-count_below :
    (a b : List ℕ) (n : ℕ) → count_loop a b n 0 0 ≡ u64 (count_below (64 * n) (both a b))
count_loop-count_below a b n =
    let same : count_below (64 * n) (λ j. both a b (64 * 0 + j)) ≡ count_below (64 * n) (both a b) =
      count_below_ext (64 * n) (λ j. both a b (64 * 0 + j)) (both a b)
        (λ j _. ap (both a b) {x = 64 * 0 + j} {y = j} (omega arith)) in
    count_loop_lem a b n 0 0 (omega arith) ∙ omega (arith, same)

-- `AndPopcount` is the number of IDs that both bitsets have, up to the shorter of the two, as a
-- 64-bit pattern.
pub and_popcount-count_below :
    (b o : Bitset)
    → and_popcount b o
      ≡ u64 (count_below (64 * min (length b.words) (length o.words)) (both b.words o.words))
unfolding and_popcount
and_popcount-count_below b o =
    count_loop-count_below b.words o.words (min (length b.words) (length o.words))

-- Membership in a slice by its first word and the rest.
pub has_id-nil : (q : ℕ) → has_id [] q ≡ false
unfolding has_id
has_id-nil q = rw (bit-of_zero (q % 64))

pub has_id-cons_low :
    (w : ℕ) (words : List ℕ) (q : ℕ) → q < 64 → has_id (w ∷ words) q ≡ (bit w q == 1)
unfolding has_id
has_id-cons_low w words q h =
    let d : q / 64 ≡ 0 = omega arith in let r : q % 64 ≡ q = omega arith in rw (d, r)

pub has_id-cons_high :
    (w : ℕ) (words : List ℕ) (q : ℕ) → has_id (w ∷ words) (64 + q) ≡ has_id words q
unfolding has_id
has_id-cons_high w words q =
    let d : (64 + q) / 64 ≡ suc (q / 64) = omega arith in
    let r : (64 + q) % 64 ≡ q % 64 = omega arith in rw (d, r)
