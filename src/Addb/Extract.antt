-- ===== src/Addb/Extract.antt =====
-- internal/addb/extract.go and internal/simd/extract_generic.go: the IDs of a bitset, in order.
pub mod Scan
pub mod Lowest
pub mod Agreement
use setrixdb.Base.{
  ℕ, zero, suc, ◌+◌, ◌-◌, ◌*◌, ◌^◌, bit_and, not, List, [], ◌∷◌, ◌++◌, ◌==◌, if◌then◌else◌, u64,
}
use setrixdb.Std.Bits.{trailing_zeros64}

-- `for j := uint(0); j < 64; j++ { … }` at `j`, with so many rounds left.
scan_word : ℕ → ℕ → ℕ → ℕ → List ℕ → List ℕ
scan_word zero j i word positions = positions
scan_word (suc left) j i word positions = scan_word left (j + 1) i word (
    if not (bit_and word (2 ^ j) == 0) then positions ++ u64 (u64 (i * 64) + j) ∷ [] else positions)

scan_words : ℕ → List ℕ → List ℕ → List ℕ
scan_words i [] positions = positions
scan_words i (word ∷ words) positions =
    scan_words (i + 1) words (if word == 0 then positions else scan_word 64 0 i word positions)

unfoldable pub extract_set : List ℕ → List ℕ
unfolding scan_word scan_words
extract_set words = scan_words 0 words []

-- `for w != 0 { p := bits.TrailingZeros64(w); …; w &= w - 1 }`. Each round clears a digit, so 64
-- rounds are enough.
lowest_loop : ℕ → ℕ → ℕ → List ℕ → List ℕ
lowest_loop zero i w out = out
lowest_loop (suc fuel) i w out =
    let rest =
      lowest_loop fuel i (bit_and w (w - 1)) (out ++ u64 (i * 64 + trailing_zeros64 w) ∷ []) in
    if w == 0 then out else rest

lowest_words : ℕ → List ℕ → List ℕ → List ℕ
lowest_words i [] out = out
lowest_words i (w ∷ words) out = lowest_words (i + 1) words (lowest_loop 64 i w out)

-- `simd.ExtractSet`, portable.
unfoldable pub extract_set_generic : List ℕ → List ℕ
unfolding lowest_loop lowest_words
extract_set_generic words = lowest_words 0 words []
