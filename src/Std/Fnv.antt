-- ===== src/Std/Fnv.antt =====
-- `hash/fnv`: the 64-bit FNV-1a sum. A hash is its state, and `Write` takes a state to the next.
use setrixdb.Base.{ℕ, ◌*◌, bit_xor, List, [], ◌∷◌, u64}

abbrev pub new64a : ℕ
new64a = 14695981039346656037

unfoldable pub write64a : ℕ → List ℕ → ℕ
write64a h [] = h
write64a h (b ∷ bytes) = write64a (u64 (bit_xor h b * 1099511628211)) bytes
