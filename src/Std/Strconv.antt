-- ===== src/Std/Strconv.antt =====
-- The package strconv in base ten: `ParseUint` with 64 bits, and `FormatUint`.
pub mod Laws
use setrixdb.Base.{
  ℕ, zero, suc, ◌+◌, ◌-◌, ◌*◌, ◌/◌, ◌%◌, ◌&&◌, Option, none, some, List, [], ◌∷◌, ◌++◌, ltb, leb,
  if◌then◌else◌, u64_mod, Bool,
}

abbrev pub is_digit : ℕ → Bool
is_digit c = leb 0x30 c && leb c 0x39

-- The digits that follow the number `n`; `none` for a byte that is no digit and for a number that
-- does not fit in 64 bits.
unfoldable pub parse_digits : ℕ → List ℕ → Option ℕ
parse_digits n [] = some n
parse_digits n (c ∷ s) =
    let m = n * 10 + (c - 0x30) in
    let rest = parse_digits m s in if is_digit c && ltb m u64_mod then rest else none

unfoldable pub parse_uint : List ℕ → Option ℕ
unfolding parse_digits
parse_uint [] = none
parse_uint (c ∷ s) = parse_digits 0 (c ∷ s)

-- The digits of a number of so many digits at most.
unfoldable pub format_digits : ℕ → ℕ → List ℕ
format_digits zero n = []
format_digits (suc left) n =
    let front = format_digits left (n / 10) in
    (if ltb n 10 then [] else front) ++ (0x30 + n % 10) ∷ []

-- A uint64 has 20 digits at most.
unfoldable pub format_uint : ℕ → List ℕ
unfolding format_digits
format_uint n = format_digits 20 n
