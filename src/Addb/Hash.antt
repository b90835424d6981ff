-- ===== src/Addb/Hash.antt =====
-- internal/addb/hash.go: the positional hash of a string, which is the list of its bytes.
use setrixdb.Base.{u64_mod, u64, ℕ, ◌+◌, ◌*◌, ◌/◌, ◌≡◌, sym, ap, ◌∙◌, List, [], ◌∷◌, arith}
use native.Mathlib.Nat.{add-mul, mul-add, mul_assoc, mul_comm}
use setrixdb.Std.Utf8.{range_from}

abbrev pub prime_base : ℕ
prime_base = 31

-- `for i, runeValue := range term { … }` over the runes that are left.
unfoldable pub hash_loop : List (ℕ × ℕ) → ℕ → ℕ → ℕ
hash_loop [] hash power = hash
hash_loop ((i, rune) ∷ runes) hash power =
    hash_loop runes (u64 (hash + u64 (u64 (rune + u64 (i + 1)) * power))) (u64 (power * prime_base))

unfoldable pub compute_deterministic_id : List ℕ → ℕ
unfolding hash_loop range_from
compute_deterministic_id term = hash_loop (range_from 0 0 term) 0 1

-- The polynomial that the loop computes: the power of the base counts the runes, where the term
-- added to each rune is its offset in bytes plus one.
unfoldable pub polynomial : List (ℕ × ℕ) → ℕ
polynomial [] = 0
polynomial ((i, rune) ∷ runes) = rune + (i + 1) + prime_base * polynomial runes

u64_mul : (a b : ℕ) → u64 (u64 a * b) ≡ u64 (a * b)
u64_mul a b =
    let q = a / u64_mod in
    let whole : a ≡ u64_mod * q + u64 a = omega arith in
    let split : a * b ≡ u64_mod * (q * b) + u64 a * b =
      ap (λ (k : ℕ). k * b) whole
      ∙ omega (arith, add-mul (u64_mod * q) (u64 a) b, mul_assoc u64_mod q b) in
    omega (arith, split)

hash_loop-polynomial :
    (runes : List (ℕ × ℕ)) (hash power p h : ℕ)
    → power ≡ u64 p
    → hash ≡ u64 h
    → hash_loop runes hash power ≡ u64 (h + p * polynomial runes)
unfolding hash_loop polynomial
hash_loop-polynomial [] hash power p h e e' = omega (arith, e')
hash_loop-polynomial ((i, rune) ∷ runes) hash power p h e e' =
    let rest = polynomial runes in
    let value = rune + (i + 1) in
    let added : u64 (u64 (rune + u64 (i + 1)) * power) ≡ u64 (value * p) =
      ap u64 (mul_comm (u64 (rune + u64 (i + 1))) power)
      ∙ rw e (u64_mul p (u64 (rune + u64 (i + 1))))
      ∙ ap u64 (mul_comm p (u64 (rune + u64 (i + 1))))
      ∙ ap (λ (k : ℕ). u64 (k * p)) {x = u64 (rune + u64 (i + 1))} {y = u64 value} (omega arith)
      ∙ u64_mul value p in
    let grown : u64 (power * prime_base) ≡ u64 (p * prime_base) = rw e (u64_mul p prime_base) in
    let sum : h + p * (value + prime_base * rest) ≡ h + value * p + p * prime_base * rest = omega (
      arith,
      mul-add p value (prime_base * rest),
      mul_comm p value,
      sym (mul_assoc p prime_base rest),
    ) in
    hash_loop-polynomial runes (u64 (hash + u64 (u64 (rune + u64 (i + 1)) * power)))
      (u64 (power * prime_base)) (p * prime_base) (h + value * p) grown (omega (arith, added, e'))
    ∙ ap u64 (sym sum)

-- The hash of a string is the polynomial of its runes in the base 31, modulo 2 ^ 64. The power of the
-- base counts the runes before; what is added to a rune is its offset in bytes plus one.
pub compute_deterministic_id-polynomial :
    (term : List ℕ) → compute_deterministic_id term ≡ u64 (polynomial (range_from 0 0 term))
unfolding compute_deterministic_id
compute_deterministic_id-polynomial term =
    hash_loop-polynomial (range_from 0 0 term) 0 1 1 0 (omega arith) (omega arith) ∙ omega arith
