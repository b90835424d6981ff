-- ===== src/Std/Bits.antt =====
-- `math/bits`: `OnesCount64`, `TrailingZeros64` and `Len32`, digit by digit.
use native.Mathlib.Nat.{pow-suc}
use setrixdb.Base.{
  ℕ, zero, suc, ◌+◌, ◌/◌, ◌%◌, ◌≤◌, ◌<◌, ◌≡◌, refl, ◌∙◌, ap, ap₂, Bool, arith, ◌==◌, if◌then◌else◌,
  bit, ◌^◌, ◌||◌, Bool-cases, inl, inr, true, false, ◌-◌, ◌<◌,
}

ones_count : ℕ → ℕ → ℕ
ones_count zero w = 0
ones_count (suc k) w = w % 2 + ones_count k (w / 2)

unfoldable pub ones_count64 : ℕ → ℕ
unfolding ones_count
ones_count64 w = ones_count 64 w

-- With `k` digits to go; `k` if none of them is set.
unfoldable pub trailing_zeros : ℕ → ℕ → ℕ
trailing_zeros zero w = 0
trailing_zeros (suc k) w =
    let above = trailing_zeros k (w / 2) + 1 in if w % 2 == 0 then above else 0

unfoldable pub trailing_zeros64 : ℕ → ℕ
unfolding trailing_zeros
trailing_zeros64 w = trailing_zeros 64 w

-- The number of places below `n` at which a test holds.
abbrev pub count_below : ℕ → (ℕ → Bool) → ℕ
count_below zero p = 0
count_below (suc n) p = count_below n p + (if p n then 1 else 0)

pub count_below_ext :
    (n : ℕ) (p r : ℕ → Bool) → ((i : ℕ) → i < n → p i ≡ r i) → count_below n p ≡ count_below n r
count_below_ext zero p r h = refl
count_below_ext (suc n) p r h =
    ap₂ ◌+◌ (count_below_ext n p r (λ i q. h i (omega arith)))
      (ap (λ (b : Bool). if b then 1 else 0) (h n (omega arith)))

pub count_below-le : (n : ℕ) (p : ℕ → Bool) → count_below n p ≤ n
count_below-le zero p = omega arith
count_below-le (suc n) p = ground (arith, count_below-le n p)

pub count_below-add :
    (n m : ℕ) (p : ℕ → Bool)
    → count_below (n + m) p ≡ count_below n p + count_below m (λ i. p (n + i))
count_below-add n zero p =
    ap (λ (k : ℕ). count_below k p) {x = n + 0} {y = n} (omega arith) ∙ omega arith
count_below-add n (suc m) p =
    ap (λ (k : ℕ). count_below k p) {x = n + suc m} {y = suc (n + m)} (omega arith)
    ∙ omega (arith, count_below-add n m p)

count_below-suc :
    (n : ℕ) (p : ℕ → Bool)
    → count_below (suc n) p ≡ (if p 0 then 1 else 0) + count_below n (λ i. p (suc i))
count_below-suc zero p = omega arith
count_below-suc (suc n) p = omega (arith, count_below-suc n p)

ones_count-count_below : (k w : ℕ) → ones_count k w ≡ count_below k (λ i. bit w i == 1)
unfolding ones_count bit
ones_count-count_below zero w = refl
ones_count-count_below (suc k) w =
    ground (arith, ones_count-count_below k (w / 2), count_below-suc k (λ i. bit w i == 1))

-- `OnesCount64` is the number of digits set.
pub ones_count64-count_below : (w : ℕ) → ones_count64 w ≡ count_below 64 (λ i. bit w i == 1)
unfolding ones_count64
ones_count64-count_below = ones_count-count_below 64

-- `bits.Len32`: the number of digits, none for 0.
digit_count : ℕ → ℕ → ℕ
digit_count zero w = 0
digit_count (suc k) w = let more = digit_count k (w / 2) + 1 in if w == 0 then 0 else more

unfoldable pub len32 : ℕ → ℕ
unfolding digit_count
len32 w = digit_count 32 w

digit_count-lt : (k w : ℕ) → w < 2 ^ k → (w < 2 ^ digit_count k w) × (digit_count k w ≤ k)
unfolding digit_count
digit_count-lt zero w h = (h, omega arith)
digit_count-lt (suc k) w h =
    let (fits, short) = digit_count-lt k (w / 2) (omega (arith, pow-suc 2 k)) in
    let next : digit_count k (w / 2) + 1 ≡ suc (digit_count k (w / 2)) = omega arith in
    elim (Bool-cases (w == 0)) [
      | inl e ↦ rw e (ground arith, omega arith)
      | inr e ↦ rw (e, next) (omega (arith, pow-suc 2 (digit_count k (w / 2)), fits), omega arith)
    ]

-- So many digits are enough.
pub len32-lt : (w : ℕ) → w < 2 ^ 32 → (w < 2 ^ len32 w) × (len32 w ≤ 32)
unfolding len32
len32-lt w h = digit_count-lt 32 w h

pub count_below_none : (n : ℕ) (p : ℕ → Bool) → ((i : ℕ) → p i ≡ false) → count_below n p ≡ 0
count_below_none zero p h = refl
count_below_none (suc n) p h = ground (arith, count_below_none n p h, h n)

pub count_below_mono : (m n : ℕ) (p : ℕ → Bool) → m ≤ n → count_below m p ≤ count_below n p
count_below_mono m n p h =
    let whole : n ≡ m + (n - m) = omega arith in
    rw whole (omega (arith, count_below-add m (n - m) p))

-- Below a place that passes the test fewer places pass it than below a later one.
pub count_below_strict :
    (m n : ℕ) (p : ℕ → Bool) → m < n → p m ≡ true → count_below m p < count_below n p
count_below_strict m n p h e = ground (arith, count_below_mono (suc m) n p h)

-- One more place that passes the test adds one at most.
pub count_below_bump :
    (n : ℕ) (p r : ℕ → Bool) (i : ℕ)
    → ((j : ℕ) → r j ≡ (i == j || p j))
    → count_below n r ≤ count_below n p + 1
count_below_bump zero p r i h = omega arith
count_below_bump (suc n) p r i h = elim (Bool-cases (i == n)) [
  | inl e ↦ let below = count_below_ext n r p (λ j q. ground (arith, h j)) in ground (arith, below)
  | inr e ↦ ground (arith, h n, count_below_bump n p r i h)
]
