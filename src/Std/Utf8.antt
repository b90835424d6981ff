-- ===== src/Std/Utf8.antt =====
-- `range` over a string: the runes of its bytes with their offsets. A byte that begins no valid rune
-- is the rune 65533, one byte wide.
use setrixdb.Base.{
  ltb, leb, ◌==◌, if◌then◌else◌, get_or, ℕ, zero, suc, ◌+◌, ◌-◌, ◌*◌, ◌%◌, Bool, ◌&&◌, Option, none,
  some, List, [], ◌∷◌,
}

pub continues : ℕ → Bool
continues b = leb 0x80 b && ltb b 0xC0

-- The rune of two, three or four bytes, when they are one in the shortest form.
rune2 : ℕ → ℕ → Option ℕ
unfolding continues
rune2 a b = if leb 0xC2 a && (ltb a 0xE0 && continues b) then some (a % 32 * 64 + b % 64) else none

rune3 : ℕ → ℕ → ℕ → Option ℕ
unfolding continues
rune3 a b c =
    let lowest = if a == 0xE0 then 0xA0 else 0x80 in
    let end = if a == 0xED then 0xA0 else 0xC0 in
    if leb 0xE0 a && (ltb a 0xF0 && (leb lowest b && (ltb b end && continues c)))
    then some (a % 16 * 4096 + b % 64 * 64 + c % 64)
    else none

rune4 : ℕ → ℕ → ℕ → ℕ → Option ℕ
unfolding continues
rune4 a b c d =
    let lowest = if a == 0xF0 then 0x90 else 0x80 in
    let end = if a == 0xF4 then 0x90 else 0xC0 in
    if leb 0xF0 a && (ltb a 0xF5 && (leb lowest b && (ltb b end && (continues c && continues d))))
    then some (a % 8 * 262144 + b % 64 * 4096 + c % 64 * 64 + d % 64)
    else none

sized : ℕ → Option ℕ → ℕ × ℕ
sized width none = (65533, 1)
sized width (some r) = (r, width)

-- The first rune and its width.
unfoldable pub decode_rune : List ℕ → ℕ × ℕ
unfolding rune2 rune3 rune4 sized
decode_rune [] = (65533, 0)
decode_rune (a ∷ bytes) =
    let b = get_or bytes 0 0 in
    let c = get_or bytes 1 0 in
    let d = get_or bytes 2 0 in
    if ltb a 0x80
    then (a, 1)
    else (if ltb a 0xE0
        then sized 2 (rune2 a b)
        else (if ltb a 0xF0 then sized 3 (rune3 a b c) else sized 4 (rune4 a b c d)))

-- The runes from the offset `i` on, past the rest of the rune before.
unfoldable pub range_from : ℕ → ℕ → List ℕ → List (ℕ × ℕ)
unfolding decode_rune
range_from i skip [] = []
range_from i (suc skip) (b ∷ bytes) = range_from (i + 1) skip bytes
range_from i zero (b ∷ bytes) =
    let rune = decode_rune (b ∷ bytes) in (i, rune.0) ∷ range_from (i + 1) (rune.1 - 1) bytes
