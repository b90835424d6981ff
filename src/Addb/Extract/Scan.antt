-- ===== src/Addb/Extract/Scan.antt =====
-- The scan of all digits as a list comprehension.
use mathlib.Core.List.{append-nil, append_assoc}
use setrixdb.Base.{
  ℕ, zero, suc, ◌+◌, ◌-◌, ◌*◌, ◌≤◌, ◌<◌, ◌≡◌, refl, sym, ◌∙◌, ap, ◌&&◌, List, [], ◌∷◌, ◌++◌, length,
  ltb, leb, ◌==◌, if◌then◌else◌, arith, inl, inr, Bool-cases, ==_iff, u64, u64_mod, bit,
  bit-of_zero, bit_and-two_pow_test, elem, elem-append, Above, IsStrict, AtLeast, Below,
  AtLeast-append, IsStrict-append, not-elem-AtLeast,
}
use native.Mathlib.Decide.{dec_lt}
use setrixdb.Addb.Bitset.Laws.{has_id, has_id-nil, has_id-cons_low, has_id-cons_high}
use setrixdb.Addb.Extract.{scan_word, scan_words, extract_set}

-- The places `j ≤ … < j + left` of the digits set in `w`, counted from `base`.
unfoldable pub digits_from : ℕ → ℕ → ℕ → ℕ → List ℕ
digits_from zero j base w = []
digits_from (suc left) j base w =
    let rest = digits_from left (j + 1) base w in if bit w j == 1 then (base + j) ∷ rest else rest

-- The same for the words from the `i`-th on.
unfoldable pub digits_of : ℕ → List ℕ → List ℕ
digits_of i [] = []
digits_of i (w ∷ words) = digits_from 64 0 (i * 64) w ++ digits_of (i + 1) words

scan_word-digits_from :
    (left j i w : ℕ) (positions : List ℕ)
    → i * 64 + (j + left) ≤ u64_mod
    → scan_word left j i w positions ≡ positions ++ digits_from left j (i * 64) w
unfolding scan_word digits_from
scan_word-digits_from zero j i w positions h = sym (append-nil positions)
scan_word-digits_from (suc left) j i w positions h =
    let place : u64 (u64 (i * 64) + j) ≡ i * 64 + j = omega arith in
    rw (bit_and-two_pow_test w j, place)
      (elim (Bool-cases (bit w j == 1)) [
        | inl e ↦ rw e (
            scan_word-digits_from left (j + 1) i w (positions ++ (i * 64 + j) ∷ []) (omega arith)
            ∙ append_assoc positions ((i * 64 + j) ∷ []) (digits_from left (j + 1) (i * 64) w))
        | inr e ↦ rw e (scan_word-digits_from left (j + 1) i w positions (omega arith))
      ])

pub digits_from_of_zero : (left j base : ℕ) → digits_from left j base 0 ≡ []
unfolding digits_from
digits_from_of_zero zero j base = refl
digits_from_of_zero (suc left) j base = rw (bit-of_zero j) (digits_from_of_zero left (j + 1) base)

scan_guarded :
    (i w : ℕ) (positions : List ℕ)
    → i * 64 + 64 ≤ u64_mod
    → (if w == 0 then positions else scan_word 64 0 i w positions)
      ≡ positions ++ digits_from 64 0 (i * 64) w
scan_guarded i w positions h = elim (Bool-cases (w == 0)) [
  | inl e ↦
      let none_set : w ≡ 0 = (==_iff w 0).0 e in
      rw (e, none_set, digits_from_of_zero 64 0 (i * 64)) (sym (append-nil positions))
  | inr e ↦ rw e (scan_word-digits_from 64 0 i w positions (omega arith))
]

scan_words-digits_of :
    (i : ℕ) (words positions : List ℕ)
    → (i + length words) * 64 ≤ u64_mod
    → scan_words i words positions ≡ positions ++ digits_of i words
unfolding scan_words digits_of
scan_words-digits_of i [] positions h = sym (append-nil positions)
scan_words-digits_of i (w ∷ words) positions h =
    let rest =
      scan_words-digits_of (i + 1) words
        (if w == 0 then positions else scan_word 64 0 i w positions) (omega arith) in
    rest
    ∙ ap (λ (l : List ℕ). l ++ digits_of (i + 1) words) (scan_guarded i w positions (omega arith))
    ∙ append_assoc positions (digits_from 64 0 (i * 64) w) (digits_of (i + 1) words)

-- Places that are not set add nothing, and only the digits in the range count.
pub digits_from_skip :
    (m left s base w : ℕ)
    → ((i : ℕ) → s ≤ i → i < s + m → bit w i ≡ 0)
    → bit w (s + m) ≡ 1
    → digits_from (m + suc left) s base w ≡ (base + (s + m)) ∷ digits_from left (s + m + 1) base w
unfolding digits_from
digits_from_skip zero left s base w h e =
    let here : s + 0 ≡ s = omega arith in
    let rounds : 0 + suc left ≡ suc left = omega arith in rw (rounds, here, rw here at e)
digits_from_skip (suc m) left s base w h e =
    let rounds : suc m + suc left ≡ suc (m + suc left) = omega arith in
    let next : s + suc m ≡ s + 1 + m = omega arith in
    rw (rounds, h s (omega arith) (omega arith), next)
      (digits_from_skip m left (s + 1) base w (λ i p q. h i (omega arith) (omega arith))
        (rw next at e))

pub digits_from_agree :
    (left j base v w : ℕ)
    → ((i : ℕ) → j ≤ i → bit v i ≡ bit w i)
    → digits_from left j base v ≡ digits_from left j base w
unfolding digits_from
digits_from_agree zero j base v w h = refl
digits_from_agree (suc left) j base v w h =
    rw (h j (omega arith), digits_from_agree left (j + 1) base v w (λ i p. h i (omega arith)))

-- Which IDs the comprehension has, and that it ascends.
elem-digits_from :
    (left j base w q : ℕ)
    → elem (base + q) (digits_from left j base w) ≡ (leb j q && ltb q (j + left) && bit w q == 1)
unfolding digits_from
elem-digits_from zero j base w q = ground arith
elem-digits_from (suc left) j base w q = elim (Bool-cases (q == j)) [
  | inl e ↦
      let same : q ≡ j = (==_iff q j).0 e in
      rw same (ground (arith, elem-digits_from left (j + 1) base w j))
  | inr e ↦ ground (arith, elem-digits_from left (j + 1) base w q)
]

Above-digits_from : (n left j base w : ℕ) → n < base + j → Above n (digits_from left j base w)
unfolding digits_from
Above-digits_from n zero j base w h = tt
Above-digits_from n (suc left) j base w h =
    let rest = Above-digits_from n left (j + 1) base w (omega arith) in ground arith

digits_from-IsStrict : (left j base w : ℕ) → IsStrict (digits_from left j base w)
unfolding digits_from
digits_from-IsStrict zero j base w = tt
digits_from-IsStrict (suc left) j base w = ground (
  arith,
  digits_from-IsStrict left (j + 1) base w,
  Above-digits_from (base + j) left (j + 1) base w (omega arith),
)

digits_from-AtLeast : (n left j base w : ℕ) → n ≤ base + j → AtLeast n (digits_from left j base w)
unfolding digits_from
digits_from-AtLeast n zero j base w h = tt
digits_from-AtLeast n (suc left) j base w h =
    let rest = digits_from-AtLeast n left (j + 1) base w (omega arith) in ground arith

digits_from-Below :
    (n left j base w : ℕ) → base + (j + left) ≤ n → Below n (digits_from left j base w)
unfolding digits_from
digits_from-Below n zero j base w h = tt
digits_from-Below n (suc left) j base w h =
    let rest = digits_from-Below n left (j + 1) base w (omega arith) in ground arith

digits_of-AtLeast : (n i : ℕ) (words : List ℕ) → n ≤ i * 64 → AtLeast n (digits_of i words)
unfolding digits_of
digits_of-AtLeast n i [] h = tt
digits_of-AtLeast n i (w ∷ words) h =
    AtLeast-append n (digits_from 64 0 (i * 64) w) (digits_of (i + 1) words)
      (digits_from-AtLeast n 64 0 (i * 64) w (omega arith))
      (digits_of-AtLeast n (i + 1) words (omega arith))

digits_of-IsStrict : (i : ℕ) (words : List ℕ) → IsStrict (digits_of i words)
unfolding digits_of
digits_of-IsStrict i [] = tt
digits_of-IsStrict i (w ∷ words) =
    IsStrict-append ((i + 1) * 64) (digits_from 64 0 (i * 64) w) (digits_of (i + 1) words)
      (digits_from-IsStrict 64 0 (i * 64) w) (digits_of-IsStrict (i + 1) words)
      (digits_from-Below ((i + 1) * 64) 64 0 (i * 64) w (omega arith))
      (digits_of-AtLeast ((i + 1) * 64) (i + 1) words (omega arith))

elem-digits_of :
    (i : ℕ) (words : List ℕ) (q : ℕ) → elem (i * 64 + q) (digits_of i words) ≡ has_id words q
unfolding digits_of
elem-digits_of i [] q = sym (has_id-nil q)
elem-digits_of i (w ∷ words) q = elim (dec_lt q 64) [
  | yes low ↦
      rw
        (
          elem-append (i * 64 + q) (digits_from 64 0 (i * 64) w) (digits_of (i + 1) words),
          elem-digits_from 64 0 (i * 64) w q,
          has_id-cons_low w words q low,
          not-elem-AtLeast (i * 64 + q) ((i + 1) * 64) (digits_of (i + 1) words)
              (digits_of-AtLeast ((i + 1) * 64) (i + 1) words (omega arith)) (omega arith),
        )
        (ground arith)
  | no high ↦
      let r = q - 64 in
      let whole : q ≡ 64 + r = omega arith in
      let place : i * 64 + (64 + r) ≡ (i + 1) * 64 + r = omega arith in
      rw
        (
          whole,
          elem-append (i * 64 + (64 + r)) (digits_from 64 0 (i * 64) w) (digits_of (i + 1) words),
          elem-digits_from 64 0 (i * 64) w (64 + r),
          has_id-cons_high w words r,
          place,
          elem-digits_of (i + 1) words r,
        )
        (ground arith)
]

pub extract_set-digits_of :
    (words : List ℕ) → length words * 64 ≤ u64_mod → extract_set words ≡ digits_of 0 words
unfolding extract_set
extract_set-digits_of words h = scan_words-digits_of 0 words [] (omega arith)

-- Of a bitset whose IDs fit 64 bits, the scan lists exactly the members, in strictly ascending order.
pub elem-extract_set :
    (words : List ℕ)
    → length words * 64 ≤ u64_mod
    → IsStrict (extract_set words) × ((q : ℕ) → elem q (extract_set words) ≡ has_id words q)
elem-extract_set words h =
    rw (extract_set-digits_of words h) (digits_of-IsStrict 0 words, λ q. from_start q)
  where
    from_start : (q : ℕ) → elem q (digits_of 0 words) ≡ has_id words q
    from_start q =
        ap (λ (k : ℕ). elem k (digits_of 0 words)) {x = q} {y = 0 * 64 + q} (omega arith)
        ∙ elem-digits_of 0 words q
