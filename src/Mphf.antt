-- ===== src/Mphf.antt =====
-- internal/mphf/mphf.go: the perfect hash function CHD. A 32-bit counter keeps its wrap-around; an
-- index of a slice stays in range, so that the default of a read is never seen.
pub mod Build
use setrixdb.Base.{
  ℕ, zero, suc, ◌+◌, ◌-◌, ◌*◌, ◌/◌, ◌%◌, ◌^◌, min, bit_and, bit_or, bit_xor, Bool, true, false,
  ◌||◌, ◌&&◌, not, Option, none, some, List, [], ◌∷◌, ◌++◌, map, length, get_or, set, replicate,
  ltb, leb, ◌==◌, if◌then◌else◌, u64, u32,
}
use setrixdb.Std.Bits.{ones_count64, len32}

pub record Chd : Type 0 where
  pub n : ℕ
  pub m : ℕ
  pub nb : ℕ
  pub gpack : List ℕ
  pub gw : ℕ
  pub max_d : ℕ
  pub words : List ℕ
  pub l1 : List ℕ
  pub seed1 : ℕ
  pub seed2 : ℕ

abbrev pub max_displacement : ℕ
max_displacement = 2 ^ 24 - 1

-- The splitmix64 finalizer.
unfoldable pub mix : ℕ → ℕ
mix x =
    let x₁ = u64 (x + 0x9E3779B97F4A7C15) in
    let x₂ = u64 (bit_xor x₁ (x₁ / 2 ^ 30) * 0xBF58476D1CE4E5B9) in
    let x₃ = u64 (bit_xor x₂ (x₂ / 2 ^ 27) * 0x94D049BB133111EB) in bit_xor x₃ (x₃ / 2 ^ 31)

unfoldable pub hash_mod : ℕ → ℕ → ℕ → ℕ
hash_mod seed size k = mix (bit_xor k seed) % size

unfoldable pub h1 : Chd → ℕ → ℕ
h1 c k = hash_mod c.seed1 c.nb k

unfoldable pub h2 : Chd → ℕ → ℕ
h2 c k = hash_mod c.seed2 c.m k

unfoldable pub bit_set : List ℕ → ℕ → Bool
bit_set w i = not (bit_and (get_or w (i / 64) 0) (2 ^ bit_and i 63) == 0)

unfoldable pub set_bit : List ℕ → ℕ → List ℕ
set_bit w i = set w (i / 64) (bit_or (get_or w (i / 64) 0) (2 ^ bit_and i 63))

-- `gval`, on the words and the width.
unfoldable pub read_bits : List ℕ → ℕ → ℕ → ℕ
read_bits gpack w j =
    let wi = j * w / 64 in
    let off = j * w % 64 in
    let low = get_or gpack wi 0 / 2 ^ off in
    let v =
      if ltb 64 (off + w)
      then bit_or low (u64 (get_or gpack (wi + 1) 0 * 2 ^ (64 - off)))
      else low in
    bit_and v (2 ^ w - 1)

unfoldable pub gval : Chd → ℕ → ℕ
unfolding read_bits
gval c j = read_bits c.gpack c.gw j

-- The total of the `OnesCount64` of so many words from `i` on, added to `r`.
unfoldable pub ones_from : List ℕ → ℕ → ℕ → ℕ → ℕ
ones_from words zero i r = r
ones_from words (suc left) i r =
    ones_from words left (i + 1) (u32 (r + u32 (ones_count64 (get_or words i 0))))

unfoldable pub rank : Chd → ℕ → ℕ
unfolding ones_from
rank c pos =
    let w = pos / 64 in
    let off = pos % 64 in
    let b = w / 8 in
    let r = ones_from c.words (w - b * 8) (b * 8) (get_or c.l1 b 0) in
    if ltb 0 off
    then u32 (r + u32 (ones_count64 (bit_and (get_or c.words w 0) (2 ^ off - 1))))
    else r

-- The ID, or `none` for false.
unfoldable pub lookup : Chd → ℕ → Option ℕ
unfolding bit_set h1 h2 gval rank
lookup c k =
    let j = h1 c k in
    let pos = u64 (h2 c k + gval c j) % c.m in
    if c.m == 0 then none else (if not (bit_set c.words pos) then none else some (rank c (u32 pos)))

unfoldable pub byte_size : Chd → ℕ
byte_size c = length c.gpack * 8 + length c.words * 8 + length c.l1 * 4
