-- ===== src/Addb/Extract/Agreement.antt =====
-- The loop on the lowest digit gives the same list as the scan of all digits.
use mathlib.Core.List.{append-nil, append_assoc}
use native.Mathlib.Nat.{mod-eq_of_lt}
use setrixdb.Base.{
  ℕ, zero, suc, ◌+◌, ◌-◌, ◌*◌, ◌^◌, ◌≤◌, ◌<◌, bit_and, ◌≡◌, ◌≢◌, refl, sym, ◌∙◌, ap, true, false,
  List, [], ◌∷◌, ◌++◌, length, ◌==◌, arith, inl, inr, Bool-cases, ==_iff, u64, u64_mod, bit,
  bit_high, bit-bit_and, lt_of_bits, Below,
}
use native.Mathlib.Decide.{dec_lt}
use setrixdb.Std.Bits.{trailing_zeros64}
use setrixdb.Addb.Extract.{lowest_loop, lowest_words, extract_set, extract_set_generic}
use setrixdb.Addb.Extract.Scan.{
  digits_from, digits_of, digits_from_skip, digits_from_agree, digits_from_of_zero,
  extract_set-digits_of,
}
use setrixdb.Addb.Extract.Lowest.{IsLowest, trailing_zeros-IsLowest}

-- The word has no digit below `s`.
abbrev ClearBelow : ℕ → ℕ → Type 0
ClearBelow s w = (i : ℕ) → i < s → bit w i ≡ 0

lowest-above : (s w p : ℕ) → ClearBelow s w → IsLowest 64 w p → s ≤ p
lowest-above s w p clear low = elim (dec_lt p s) [
  | yes q ↦ omega (arith, clear p q, low.is_set)
  | no q ↦ omega arith
]

clear_next : (w p : ℕ) → IsLowest 64 w p → ClearBelow (p + 1) (bit_and w (w - 1))
clear_next w p low i q = low.cleared i ∙ ground (arith, low.below i)

bit_and-lt_two_pow : (k v w : ℕ) → w < 2 ^ k → bit_and w v < 2 ^ k
bit_and-lt_two_pow k v w h =
    lt_of_bits k (bit_and w v) λ i p. bit-bit_and w v i ∙ omega (arith, bit_high k w i h p)

-- With no digit set below `s`, the list begins with the lowest one, and goes on with the rest.
digits_from_lowest :
    (left s base w p : ℕ)
    → s + left ≡ 64
    → ClearBelow s w
    → IsLowest 64 w p
    → digits_from left s base w ≡ (base + p) ∷ digits_from (63 - p) (p + 1) base (bit_and w (w - 1))
digits_from_lowest left s base w p whole clear low =
    let above = lowest-above s w p clear low in
    let rounds : left ≡ p - s + suc (63 - p) = omega (arith, low.within) in
    let place : s + (p - s) ≡ p = omega arith in
    let skip =
      digits_from_skip (p - s) (63 - p) s base w (λ i a b. low.below i (omega arith))
        (rw place low.is_set) in
    let agree =
      digits_from_agree (63 - p) (p + 1) base (bit_and w (w - 1)) w
        (λ i q. low.cleared i ∙ ground arith) in
    rw (rounds, agree) (rw place at skip)

lowest_loop_step :
    (fuel i w : ℕ) (out : List ℕ)
    → w == 0 ≡ false
    → lowest_loop (suc fuel) i w out
      ≡ lowest_loop fuel i (bit_and w (w - 1)) (out ++ u64 (i * 64 + trailing_zeros64 w) ∷ [])
unfolding lowest_loop
lowest_loop_step fuel i w out e = rw e refl

lowest_loop_done :
    (fuel i w : ℕ) (out : List ℕ) → w == 0 ≡ true → lowest_loop (suc fuel) i w out ≡ out
unfolding lowest_loop
lowest_loop_done fuel i w out e = rw e refl

lowest_loop-digits_from :
    (fuel left s i w : ℕ) (out : List ℕ)
    → left ≤ fuel
    → s + left ≡ 64
    → ClearBelow s w
    → w < u64_mod
    → i * 64 + 64 ≤ u64_mod
    → lowest_loop fuel i w out ≡ out ++ digits_from left s (i * 64) w
unfolding lowest_loop digits_from trailing_zeros64
lowest_loop-digits_from zero zero s i w out enough whole clear small fit = sym (append-nil out)
lowest_loop-digits_from zero (suc left) s i w out enough whole clear small fit =
    absurd (omega arith)
lowest_loop-digits_from (suc fuel) left s i w out enough whole clear small fit =
    elim (Bool-cases (w == 0)) [
      | inl e ↦
          let none_set : w ≡ 0 = (==_iff w 0).0 e in
          lowest_loop_done fuel i w out e
          ∙ rw (none_set, digits_from_of_zero left s (i * 64)) (sym (append-nil out))
      | inr e ↦
          let ne : w ≢ 0 = λ z. ground (arith, z) in
          let p = trailing_zeros64 w in
          let low = trailing_zeros-IsLowest 64 w ne small in
          let place : u64 (i * 64 + p) ≡ i * 64 + p = mod-eq_of_lt (omega (arith, low.within)) in
          lowest_loop_step fuel i w out e
          ∙ lowest_loop-digits_from fuel (63 - p) (p + 1) i (bit_and w (w - 1))
              (out ++ u64 (i * 64 + p) ∷ [])
              (omega (arith, lowest-above s w p clear low, low.within)) (omega (arith, low.within))
              (clear_next w p low) (bit_and-lt_two_pow 64 (w - 1) w small) fit
          ∙ rw (place, digits_from_lowest left s (i * 64) w p whole clear low)
              (append_assoc out ((i * 64 + p) ∷ [])
                (digits_from (63 - p) (p + 1) (i * 64) (bit_and w (w - 1))))
    ]

lowest_words-digits_of :
    (i : ℕ) (words out : List ℕ)
    → Below u64_mod words
    → (i + length words) * 64 ≤ u64_mod
    → lowest_words i words out ≡ out ++ digits_of i words
unfolding lowest_words digits_of
lowest_words-digits_of i [] out small fit = sym (append-nil out)
lowest_words-digits_of i (w ∷ words) out small fit =
    lowest_words-digits_of (i + 1) words (lowest_loop 64 i w out) small.1 (omega arith)
    ∙ ap (λ (l : List ℕ). l ++ digits_of (i + 1) words)
        (lowest_loop-digits_from 64 64 0 i w out (omega arith) (omega arith)
          (λ j q. absurd (omega arith)) small.0 (omega arith))
    ∙ append_assoc out (digits_from 64 0 (i * 64) w) (digits_of (i + 1) words)

-- The portable extraction, which jumps from one lowest set digit to the next, and the scan of all 64
-- digits of every word give the same list, for words below 2 ^ 64 whose IDs fit 64 bits.
pub extract_set_generic-extract_set :
    (words : List ℕ)
    → Below u64_mod words
    → length words * 64 ≤ u64_mod
    → extract_set_generic words ≡ extract_set words
unfolding extract_set_generic
extract_set_generic-extract_set words small fit =
    lowest_words-digits_of 0 words [] small (omega arith) ∙ sym (extract_set-digits_of words fit)
