-- ===== src/Addb/Bitset.antt =====
-- internal/addb/bitset.go, and the portable kernel of internal/simd/simd_generic.go. An index out of
-- range panics in Go: the outcome `none`.
pub mod Laws
use setrixdb.Base.{
  ℕ, zero, suc, ◌+◌, ◌*◌, ◌/◌, ◌^◌, min, bit_and, bit_or, Bool, not, Option, none, some, List,
  length, get_or, set, replicate, ltb, ◌==◌, if◌then◌else◌, u64,
}
use setrixdb.Std.Bits.{ones_count64}

pub record Bitset : Type 0 where
  pub words : List ℕ

unfoldable pub new_bitset : ℕ → Bitset
new_bitset max_id = record { words = replicate (max_id / 64 + 1) 0 }

-- `b.Words[id>>6] |= 1 << (id & 63)`
unfoldable pub set_id : Bitset → ℕ → Option Bitset
set_id b id =
    let i = id / 64 in
    if ltb i (length b.words)
    then some (record { words = set b.words i (bit_or (get_or b.words i 0) (2 ^ bit_and id 63)) })
    else none

unfoldable pub test : Bitset → ℕ → Option Bool
test b id =
    let i = id / 64 in
    if ltb i (length b.words)
    then some (not (bit_and (get_or b.words i 0) (2 ^ bit_and id 63) == 0))
    else none

-- `for i := 0; i < n; i++ { c += …(a[i] & b[i]) }` at `i`, with so many rounds left. The counter is
-- the bit pattern of an `int64`.
unfoldable pub count_loop : List ℕ → List ℕ → ℕ → ℕ → ℕ → ℕ
count_loop a b zero i c = c
count_loop a b (suc left) i c =
    count_loop a b left (i + 1) (u64 (c + ones_count64 (bit_and (get_or a i 0) (get_or b i 0))))

unfoldable pub and_popcount : Bitset → Bitset → ℕ
unfolding count_loop
and_popcount b o = count_loop b.words o.words (min (length b.words) (length o.words)) 0 0

-- `simd.AndPopcount`, portable.
unfoldable pub and_popcount_generic : List ℕ → List ℕ → ℕ
unfolding count_loop
and_popcount_generic a b = count_loop a b (min (length a) (length b)) 0 0

unfoldable pub byte_size : Bitset → ℕ
byte_size b = length b.words * 8
