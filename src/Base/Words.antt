-- ===== src/Base/Words.antt =====
-- Machine words: the moduli, and the operations of Go's `uint64` and `uint32` that wrap around.
use Prim.Native.Nat.{ℕ, ◌+◌, ◌-◌, ◌%◌, ◌^◌}

abbrev pub u64_mod : ℕ
u64_mod = 2 ^ 64

abbrev pub u32_mod : ℕ
u32_mod = 2 ^ 32

abbrev pub u64 : ℕ → ℕ
u64 n = n % u64_mod

abbrev pub u32 : ℕ → ℕ
u32 n = n % u32_mod

-- `^x` of a `uint64`.
abbrev pub complement : ℕ → ℕ
complement x = u64_mod - 1 - x

-- `a - b` of two `uint64`s.
abbrev pub sub64 : ℕ → ℕ → ℕ
sub64 a b = u64 (a + u64_mod - b)
