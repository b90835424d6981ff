-- ===== src/Addb/Extract/Lowest.antt =====
-- `w & (w - 1)` clears the lowest digit that is set, and `TrailingZeros64` is its place.
use native.Mathlib.Nat.{pow-suc}
use setrixdb.Base.{
  ℕ, zero, suc, ◌+◌, ◌-◌, ◌/◌, ◌%◌, ◌^◌, ◌<◌, bit_and, ◌≡◌, ◌≢◌, sym, ◌∙◌, ◌==◌, if◌then◌else◌,
  arith, inl, inr, Bool-cases, ==_iff, bit, bit-bit_and,
}
use setrixdb.Std.Bits.{trailing_zeros}

-- What a place `p` says of a number: its lowest digit set.
pub record IsLowest (k w p : ℕ) : Type 0 where
  pub within : p < k
  pub is_set : bit w p ≡ 1
  pub below : (i : ℕ) → i < p → bit w i ≡ 0
  pub cleared : (i : ℕ) → bit (bit_and w (w - 1)) i ≡ (if i == p then 0 else bit w i)

odd_cleared : (w i : ℕ) → w % 2 ≡ 1 → bit (bit_and w (w - 1)) i ≡ (if i == 0 then 0 else bit w i)
odd_cleared w zero odd = bit-bit_and w (w - 1) 0 ∙ (unfold bit in omega arith)
odd_cleared w (suc i) odd =
    let halves : (w - 1) / 2 ≡ w / 2 = omega arith in
    bit-bit_and w (w - 1) (suc i) ∙ (unfold bit in rw halves (ground arith))

even_cleared :
    (w i : ℕ)
    → w % 2 ≡ 0
    → w ≢ 0
    → bit (bit_and w (w - 1)) (suc i) ≡ bit (bit_and (w / 2) (w / 2 - 1)) i
even_cleared w i even ne =
    let halves : (w - 1) / 2 ≡ w / 2 - 1 = omega arith in
    bit-bit_and w (w - 1) (suc i)
    ∙ (unfold bit in rw halves (sym (bit-bit_and (w / 2) (w / 2 - 1) i)))

zero-IsLowest : (k w : ℕ) → w % 2 ≡ 1 → IsLowest (suc k) w 0
unfolding bit
zero-IsLowest k w odd = record {
  within = omega arith;
  is_set = odd;
  below = λ i p. absurd (omega arith);
  cleared = λ i. odd_cleared w i odd;
}

suc-IsLowest : (k w p : ℕ) → w % 2 ≡ 0 → w ≢ 0 → IsLowest k (w / 2) p → IsLowest (suc k) w (suc p)
unfolding bit
suc-IsLowest k w p even ne low = record {
  within = omega (arith, low.within);
  is_set = low.is_set;
  below = below_suc;
  cleared = cleared_suc;
}
  where
    below_suc : (i : ℕ) → i < suc p → bit w i ≡ 0
    below_suc zero q = even
    below_suc (suc i) q = low.below i (omega arith)

    cleared_suc : (i : ℕ) → bit (bit_and w (w - 1)) i ≡ (if i == suc p then 0 else bit w i)
    cleared_suc zero = bit-bit_and w (w - 1) 0 ∙ ground arith
    cleared_suc (suc i) = even_cleared w i even ne ∙ low.cleared i ∙ ground arith

pub trailing_zeros-IsLowest : (k w : ℕ) → w ≢ 0 → w < 2 ^ k → IsLowest k w (trailing_zeros k w)
unfolding trailing_zeros
trailing_zeros-IsLowest zero w ne h = absurd (ne (omega arith))
trailing_zeros-IsLowest (suc k) w ne h =
    let rest = trailing_zeros-IsLowest k (w / 2) in
    elim (Bool-cases (w % 2 == 0)) [
      | inl e ↦
          let even : w % 2 ≡ 0 = (==_iff (w % 2) 0).0 e in
          let next : trailing_zeros k (w / 2) + 1 ≡ suc (trailing_zeros k (w / 2)) = omega arith in
          rw (e, next)
            (suc-IsLowest k w (trailing_zeros k (w / 2)) even ne
              (rest (λ z. ne (omega arith)) (omega (arith, pow-suc 2 k))))
      | inr e ↦ rw e (zero-IsLowest k w (ground arith))
    ]
