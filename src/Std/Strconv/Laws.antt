-- ===== src/Std/Strconv/Laws.antt =====
-- `ParseUint` of what `FormatUint` wrote, and what it accepts.
use setrixdb.Base.{
  ℕ, zero, suc, ◌+◌, ◌-◌, ◌*◌, ◌/◌, ◌%◌, ◌^◌, ◌<◌, ◌≡◌, refl, ◌∙◌, ap, true, ◌&&◌, some, List, [],
  ◌∷◌, ◌++◌, ltb, ltb→lt, u64_mod, arith, Bool-cases, inl, inr, none_ne_some, ◌≢◌,
}
use setrixdb.Std.Strconv.{is_digit, parse_digits, parse_uint, format_digits, format_uint}

abbrev pub AllDigits : List ℕ → Type 0
AllDigits [] = Unit
AllDigits (c ∷ s) = (is_digit c ≡ true) × AllDigits s

format_digits-AllDigits-step :
    (s : List ℕ) (c : ℕ) → AllDigits s → is_digit c ≡ true → AllDigits (s ++ c ∷ [])
format_digits-AllDigits-step [] c a e = (e, tt)
format_digits-AllDigits-step (d ∷ s) c a e = (a.0, format_digits-AllDigits-step s c a.1 e)

digit : (n : ℕ) → is_digit (0x30 + n % 10) ≡ true
digit n = ground arith

pub format_digits-AllDigits : (left n : ℕ) → AllDigits (format_digits left n)
unfolding format_digits
format_digits-AllDigits zero n = tt
format_digits-AllDigits (suc left) n = elim (Bool-cases (ltb n 10)) [
  | inl e ↦ rw e (digit n, tt)
  | inr e ↦ rw e (
      format_digits-AllDigits-step (format_digits left (n / 10)) (0x30 + n % 10)
        (format_digits-AllDigits left (n / 10)) (digit n))
]

parse_digits-append :
    (n : ℕ) (s : List ℕ) (m c : ℕ)
    → parse_digits n s ≡ some m
    → is_digit c ≡ true
    → m * 10 + (c - 0x30) < u64_mod
    → parse_digits n (s ++ c ∷ []) ≡ some (m * 10 + (c - 0x30))
unfolding parse_digits
parse_digits-append n [] m c h d short = ground arith
parse_digits-append n (b ∷ s) m c h d short =
    elim (Bool-cases (is_digit b && ltb (n * 10 + (b - 0x30)) u64_mod)) [
      | inl e ↦ rw e (parse_digits-append (n * 10 + (b - 0x30)) s m c (rw e at h) d short)
      | inr e ↦ absurd (ground (arith, h))
    ]

parse_digits-format_digits :
    (left n : ℕ) → n < 10 ^ left → n < u64_mod → parse_digits 0 (format_digits left n) ≡ some n
unfolding format_digits
parse_digits-format_digits zero n h short = unfold parse_digits in ap some (omega arith)
parse_digits-format_digits (suc left) n h short = elim (Bool-cases (ltb n 10)) [
  | inl e ↦ rw e (
      parse_digits-append 0 [] 0 (0x30 + n % 10) (unfold parse_digits in refl) (digit n)
        (omega (arith, ltb→lt n 10 e))
      ∙ ap some (omega (arith, ltb→lt n 10 e)))
  | inr e ↦ rw e (
      parse_digits-append 0 (format_digits left (n / 10)) (n / 10) (0x30 + n % 10)
        (parse_digits-format_digits left (n / 10) (omega arith) (omega arith)) (digit n)
        (omega arith)
      ∙ ap some (omega arith))
]

parse_uint-AllDigits :
    (s : List ℕ) (n : ℕ) → s ≢ [] → parse_digits 0 s ≡ some n → parse_uint s ≡ some n
unfolding parse_uint
parse_uint-AllDigits [] n ne h = absurd (ne refl)
parse_uint-AllDigits (c ∷ s) n ne h = h

append-ne-nil : (s : List ℕ) (c : ℕ) → s ++ c ∷ [] ≢ []
append-ne-nil [] c h = cc
append-ne-nil (d ∷ s) c h = cc

-- A 64-bit number is read back from its digits.
pub parse_uint-format_uint : (n : ℕ) → n < u64_mod → parse_uint (format_uint n) ≡ some n
unfolding format_uint
parse_uint-format_uint n h =
    parse_uint-AllDigits (format_digits 20 n) n
      (unfold format_digits in append-ne-nil _ (0x30 + n % 10))
      (parse_digits-format_digits 20 n (omega arith) h)

pub format_uint-AllDigits : (n : ℕ) → AllDigits (format_uint n)
unfolding format_uint
format_uint-AllDigits n = format_digits-AllDigits 20 n

-- Whatever is read fits in 64 bits.
pub parse_digits-lt :
    (n : ℕ) (s : List ℕ) (m : ℕ) → n < u64_mod → parse_digits n s ≡ some m → m < u64_mod
unfolding parse_digits
parse_digits-lt n [] m short h = ground (arith)
parse_digits-lt n (c ∷ s) m short h =
    elim (Bool-cases (is_digit c && ltb (n * 10 + (c - 0x30)) u64_mod)) [
      | inl e ↦ parse_digits-lt (n * 10 + (c - 0x30)) s m (ground arith) (rw e at h)
      | inr e ↦ absurd (none_ne_some m (rw e at h))
    ]

pub parse_uint-lt : (s : List ℕ) (m : ℕ) → parse_uint s ≡ some m → m < u64_mod
unfolding parse_uint
parse_uint-lt [] m h = absurd (none_ne_some m h)
parse_uint-lt (c ∷ s) m h = parse_digits-lt 0 (c ∷ s) m (omega arith) h
