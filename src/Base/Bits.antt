-- ===== src/Base/Bits.antt =====
-- Binary digits of native numbers: what `&`, `|`, `^` and `1 << i` do to each digit, and that
-- numbers with the same digits are equal.
use Prim.Native.Nat.{
  ℕ, zero, suc, ◌+◌, ◌-◌, ◌*◌, ◌/◌, ◌%◌, ◌^◌, ◌≤◌, ◌<◌, min, max, bit_and, bit_or, bit_xor, digits,
  differ, bit_and-bitwise, bit_or-bitwise, bit_xor-bitwise,
}
use mathlib.Core.Path.{◌≡◌, refl, ◌∙◌, sym, ap, ap₂}
use mathlib.Core.Logic.{◌⊎◌, inl, inr, ◌↔◌}
use mathlib.Core.Bool.{true, not}
use native.Mathlib.Nat.{
  pow-suc, one-le-pow, div-add-mod', mod-lt, mod-eq_of_lt, add-mul-mod_self_right,
}
use native.Mathlib.Omega.{arith}
use setrixdb.Base.Tests.{◌==◌, ltb, if◌then◌else◌}

-- The digit of weight 2 ^ i.
unfoldable pub bit : ℕ → ℕ → ℕ
bit w zero = w % 2
bit w (suc i) = bit (w / 2) i

pub bit-le_one : (w i : ℕ) → bit w i ≤ 1
unfolding bit
bit-le_one w zero = omega arith
bit-le_one w (suc i) = bit-le_one (w / 2) i

pub bit-of_zero : (i : ℕ) → bit 0 i ≡ 0
unfolding bit
bit-of_zero zero = refl
bit-of_zero (suc i) = bit-of_zero i

module _ (z : ℕ → ℕ) (f : ℕ → ℕ → ℕ) (ends : (b i : ℕ) → bit (z b) i ≡ f 0 (bit b i))
    (small : (x y : ℕ) → x ≤ 1 → y ≤ 1 → f x y ≤ 1) where
  digits_ended : (b i : ℕ) → bit (z b) i ≡ f (bit 0 i) (bit b i)
  digits_ended b i = ends b i ∙ ap (λ (t : ℕ). f t (bit b i)) (sym (bit-of_zero i))

  bit-digits : (n a b i : ℕ) → a ≤ n → bit (digits z f n a b) i ≡ f (bit a i) (bit b i)
  unfolding bit
  bit-digits zero zero b i h = digits_ended b i
  bit-digits zero (suc a) b i h = absurd (omega arith)
  bit-digits (suc n) zero b i h = digits_ended b i
  bit-digits (suc n) (suc a) b zero h =
      omega (arith, small (suc a % 2) (b % 2) (omega arith) (omega arith))
  bit-digits (suc n) (suc a) b (suc i) h =
      let below = small (suc a % 2) (b % 2) (omega arith) (omega arith) in
      let rest = digits z f n (suc a / 2) (b / 2) in
      let halved : (rest * 2 + f (suc a % 2) (b % 2)) / 2 ≡ rest = omega arith in
      ap (λ (t : ℕ). bit t i) halved ∙ bit-digits n (suc a / 2) (b / 2) i (omega arith)

pub bit-bit_and : (a b i : ℕ) → bit (bit_and a b) i ≡ min (bit a i) (bit b i)
bit-bit_and a b i = rw bit_and-bitwise (
    bit-digits (λ c. 0) min (λ c j. bit-of_zero j ∙ omega arith) (λ x y p q. omega arith) a a b i
      (omega arith))

pub bit-bit_or : (a b i : ℕ) → bit (bit_or a b) i ≡ max (bit a i) (bit b i)
bit-bit_or a b i =
    rw bit_or-bitwise
      (bit-digits (λ c. c) max (λ c j. omega arith) (λ x y p q. omega arith) a a b i (omega arith))

differ-le_one : (x y : ℕ) → x ≤ 1 → y ≤ 1 → differ x y ≤ 1
differ-le_one zero y p q = q
differ-le_one (suc zero) zero p q = p
differ-le_one (suc zero) (suc y) p q = omega arith
differ-le_one (suc (suc x)) y p q = absurd (omega arith)

differ-eq_zero : (x y : ℕ) → differ x y ≡ 0 → x ≡ y
differ-eq_zero zero y h = sym h
differ-eq_zero (suc x) zero h = h
differ-eq_zero (suc x) (suc y) h = ap suc (differ-eq_zero x y h)

differ_self : (x : ℕ) → differ x x ≡ 0
differ_self zero = refl
differ_self (suc x) = differ_self x

bit-bit_xor : (a b i : ℕ) → bit (bit_xor a b) i ≡ differ (bit a i) (bit b i)
bit-bit_xor a b i =
    rw bit_xor-bitwise
      (bit-digits (λ c. c) differ (λ c j. refl) differ-le_one a a b i (omega arith))

-- Numbers with the same digits are equal.
bit_ext_fuel : (n a b : ℕ) → a ≤ n → b ≤ n → ((i : ℕ) → bit a i ≡ bit b i) → a ≡ b
unfolding bit
bit_ext_fuel zero a b p q h = omega arith
bit_ext_fuel (suc n) a b p q h =
    omega (arith, h 0, bit_ext_fuel n (a / 2) (b / 2) (omega arith) (omega arith) (λ i. h (suc i)))

pub bit_ext : (a b : ℕ) → ((i : ℕ) → bit a i ≡ bit b i) → a ≡ b
bit_ext a b = bit_ext_fuel (a + b) a b (omega arith) (omega arith)

-- `a ^ b` is zero exactly when the two are equal.
pub bit_xor-eq_zero_iff : (a b : ℕ) → (bit_xor a b ≡ 0) ↔ (a ≡ b)
bit_xor-eq_zero_iff a b = (
  λ h. bit_ext a b λ i.
      differ-eq_zero (bit a i) (bit b i)
        (sym (bit-bit_xor a b i) ∙ ap (λ (t : ℕ). bit t i) h ∙ bit-of_zero i),
  λ h. bit_ext (bit_xor a b) 0 λ i.
      bit-bit_xor a b i
      ∙ ap (λ (t : ℕ). differ (bit t i) (bit b i)) h
      ∙ differ_self (bit b i)
      ∙ sym (bit-of_zero i),
)

-- The number `1 << i` has that one digit.
pub bit-two_pow : (i j : ℕ) → bit (2 ^ i) j ≡ (if i == j then 1 else 0)
unfolding bit
bit-two_pow zero zero = refl
bit-two_pow zero (suc j) = bit-of_zero j ∙ ground arith
bit-two_pow (suc i) zero = ground (arith, pow-suc 2 i)
bit-two_pow (suc i) (suc j) =
    let halved : 2 ^ suc i / 2 ≡ 2 ^ i = omega (arith, pow-suc 2 i) in
    rw halved (bit-two_pow i j ∙ ground arith)

-- Below 2 ^ k there is no digit from k on, and conversely.
pub bit_high : (k w i : ℕ) → w < 2 ^ k → k ≤ i → bit w i ≡ 0
unfolding bit
bit_high zero w i h p = let e : w ≡ 0 = omega arith in rw e (bit-of_zero i)
bit_high (suc k) w zero h p = absurd (omega arith)
bit_high (suc k) w (suc i) h p = bit_high k (w / 2) i (omega (arith, pow-suc 2 k)) (omega arith)

pub lt_of_bits : (k w : ℕ) → ((i : ℕ) → k ≤ i → bit w i ≡ 0) → w < 2 ^ k
unfolding bit
lt_of_bits zero w h = omega (arith, bit_ext w 0 (λ i. h i (omega arith) ∙ sym (bit-of_zero i)))
lt_of_bits (suc k) w h =
    omega (arith, pow-suc 2 k, lt_of_bits k (w / 2) (λ i p. h (suc i) (omega arith)))

pub bit_or-lt : (k a b : ℕ) → a < 2 ^ k → b < 2 ^ k → bit_or a b < 2 ^ k
bit_or-lt k a b ha hb =
    lt_of_bits k (bit_or a b)
      λ i p. omega (arith, bit-bit_or a b i, bit_high k a i ha p, bit_high k b i hb p)

pub bit_xor-lt : (k a b : ℕ) → a < 2 ^ k → b < 2 ^ k → bit_xor a b < 2 ^ k
bit_xor-lt k a b ha hb =
    lt_of_bits k (bit_xor a b)
      λ i p. bit-bit_xor a b i ∙ ap₂ differ (bit_high k a i ha p) (bit_high k b i hb p)

-- A number with fewer digits set is not above.
le_of_bits_fuel : (n a b : ℕ) → a ≤ n → ((i : ℕ) → bit a i ≤ bit b i) → a ≤ b
unfolding bit
le_of_bits_fuel zero a b p h = omega arith
le_of_bits_fuel (suc n) a b p h =
    omega (arith, h 0, le_of_bits_fuel n (a / 2) (b / 2) (omega arith) (λ i. h (suc i)))

pub le-bit_or : (a b : ℕ) → (a ≤ bit_or a b) × (b ≤ bit_or a b)
le-bit_or a b = (
  le_of_bits_fuel a a (bit_or a b) (omega arith) (λ i. omega (arith, bit-bit_or a b i)),
  le_of_bits_fuel b b (bit_or a b) (omega arith) (λ i. omega (arith, bit-bit_or a b i)),
)

pub two_pow_pos : (k : ℕ) → 0 < 2 ^ k
two_pow_pos k = omega (arith, one-le-pow k 2)

pub bit_value : (w i : ℕ) → (bit w i ≡ 0) ⊎ (bit w i ≡ 1)
bit_value w i = omega (arith, bit-le_one w i)

-- `w & (1 << i)` keeps that digit alone.
pub bit_and-two_pow : (w i : ℕ) → bit_and w (2 ^ i) ≡ (if bit w i == 1 then 2 ^ i else 0)
bit_and-two_pow w i = elim (bit_value w i) [
  | inl e ↦ rw e (
      bit_ext (bit_and w (2 ^ i)) 0
        λ j. ground (arith, bit-bit_and w (2 ^ i) j, bit-two_pow i j, bit-of_zero j, e))
  | inr e ↦ rw e (
      bit_ext (bit_and w (2 ^ i)) (2 ^ i)
        λ j. ground (arith, bit-bit_and w (2 ^ i) j, bit-two_pow i j, bit-le_one w j, e))
]

-- The test `w & (1 << i) != 0` reads the digit.
pub bit_and-two_pow_test : (w i : ℕ) → not (bit_and w (2 ^ i) == 0) ≡ (bit w i == 1)
bit_and-two_pow_test w i = ground (arith, bit_and-two_pow w i, two_pow_pos i)

-- `w | (1 << i)` sets that digit alone.
pub bit-set_bit :
    (w i j : ℕ) → (bit (bit_or w (2 ^ i)) j == 1) ≡ (if i == j then true else (bit w j == 1))
bit-set_bit w i j = ground (arith, bit-bit_or w (2 ^ i) j, bit-two_pow i j, bit-le_one w j)

-- `w & 63` is the remainder by 64.
low_ones : (k i : ℕ) → bit (2 ^ k - 1) i ≡ (if ltb i k then 1 else 0)
unfolding bit
low_ones zero i = bit-of_zero i ∙ ground arith
low_ones (suc k) zero = ground (arith, pow-suc 2 k, two_pow_pos k)
low_ones (suc k) (suc i) =
    let halved : (2 ^ suc k - 1) / 2 ≡ 2 ^ k - 1 = omega (arith, pow-suc 2 k, two_pow_pos k) in
    rw halved (low_ones k i ∙ ground arith)

mod_split : (k w : ℕ) → w % 2 ^ suc k ≡ w / 2 % 2 ^ k * 2 + w % 2
mod_split k w =
    let p = 2 ^ k in
    let low = w / 2 % p * 2 + w % 2 in
    let whole : low + w / 2 / p * 2 ^ suc k ≡ w =
      omega (arith, ap (λ (t : ℕ). w / 2 / p * t) (pow-suc 2 k), div-add-mod' (w / 2) p) in
    let fits : low < 2 ^ suc k =
      omega (arith, pow-suc 2 k, mod-lt (w / 2) {m = p} (omega (arith, two_pow_pos k))) in
    ap (λ (t : ℕ). t % 2 ^ suc k) (sym whole)
    ∙ add-mul-mod_self_right low (w / 2 / p) (2 ^ suc k)
    ∙ mod-eq_of_lt fits

pub bit-mod : (k w i : ℕ) → bit (w % 2 ^ k) i ≡ (if ltb i k then bit w i else 0)
unfolding bit
bit-mod zero w i = let e : w % 1 ≡ 0 = omega arith in rw e (bit-of_zero i ∙ ground arith)
bit-mod (suc k) w zero = ground (arith, mod_split k w)
bit-mod (suc k) w (suc i) =
    let halved : w % 2 ^ suc k / 2 ≡ w / 2 % 2 ^ k = omega (arith, mod_split k w) in
    rw halved (bit-mod k (w / 2) i ∙ ground arith)

pub bit_and_mask : (k w : ℕ) → bit_and w (2 ^ k - 1) ≡ w % 2 ^ k
bit_and_mask k w =
    bit_ext (bit_and w (2 ^ k - 1)) (w % 2 ^ k)
      λ i. ground (arith, bit-bit_and w (2 ^ k - 1) i, low_ones k i, bit-mod k w i, bit-le_one w i)
