-- ===== src/Mphf/Build/Rank.antt =====
-- The blocks of `buildRank` make `rank` the number of occupied slots before a slot.
use setrixdb.Base.{
  ltb, ◌==◌, Bool-cases, length, get_or, bit, bit-mod, bit_and_mask, u32_mod, u32, ℕ, zero, suc,
  ◌+◌, ◌-◌, ◌*◌, ◌/◌, ◌%◌, ◌^◌, ◌≤◌, ◌<◌, min, bit_and, ◌≡◌, sym, ap, ◌∙◌, inl, inr, Bool, List,
  arith,
}
use setrixdb.Std.Bits.{
  ones_count64, ones_count64-count_below, count_below, count_below_ext, count_below-add,
  count_below-le, count_below_none,
}
use setrixdb.Addb.Bitset.Laws.{has_id, has_id-word}
use setrixdb.Mphf.{Chd, ones_from, rank}
use setrixdb.Mphf.Build.{rank_blocks, build_rank}

-- The occupied slots in the words before the `i`-th.
abbrev ones_before : List ℕ → ℕ → ℕ
ones_before words i = count_below (64 * i) (has_id words)

word_ones :
    (words : List ℕ) (i : ℕ)
    → ones_count64 (get_or words i 0) ≡ count_below 64 (λ j. has_id words (64 * i + j))
word_ones words i =
    ones_count64-count_below (get_or words i 0)
    ∙ count_below_ext 64 (λ j. bit (get_or words i 0) j == 1) (λ j. has_id words (64 * i + j))
        (λ j h. sym (has_id-word words i j h))

ones_before-suc :
    (words : List ℕ) (i : ℕ)
    → ones_before words (i + 1) ≡ ones_before words i + ones_count64 (get_or words i 0)
ones_before-suc words i =
    ap (λ (n : ℕ). count_below n (has_id words)) {x = 64 * (i + 1)} {y = 64 * i + 64} (omega arith)
    ∙ omega (arith, count_below-add (64 * i) 64 (has_id words), word_ones words i)

-- While the slots are fewer than 2 ^ 32, no counter wraps around.
module _ (words : List ℕ) (few : 64 * length words < u32_mod) where
  ones_from-ones_before :
      (left i : ℕ)
      → i + left ≤ length words
      → ones_from words left i (ones_before words i) ≡ ones_before words (i + left)
  unfolding ones_from
  ones_from-ones_before zero i h = ap (ones_before words) {x = i} {y = i + 0} (omega arith)
  ones_from-ones_before (suc left) i h =
      let step = ones_before-suc words i in
      let most = count_below-le (64 * (i + 1)) (has_id words) in
      let next : u32 (ones_before words i + u32 (ones_count64 (get_or words i 0)))
          ≡ ones_before words (i + 1) =
        omega (arith, step, most) in
      let places : i + suc left ≡ i + 1 + left = omega arith in
      rw (next, places) (ones_from-ones_before left (i + 1) (omega arith))

  get_or-rank_blocks :
      (left b k : ℕ)
      → k ≤ left
      → 8 * (b + k) ≤ length words
      → get_or (rank_blocks words left b (ones_before words (8 * b))) k 0
        ≡ ones_before words (8 * (b + k))
  unfolding rank_blocks
  get_or-rank_blocks zero b zero h fit =
      ap (ones_before words) {x = 8 * b} {y = 8 * (b + 0)} (omega arith)
  get_or-rank_blocks zero b (suc k) h fit = absurd (omega arith)
  get_or-rank_blocks (suc left) b zero h fit =
      ap (ones_before words) {x = 8 * b} {y = 8 * (b + 0)} (omega arith)
  get_or-rank_blocks (suc left) b (suc k) h fit =
      let rounds : min 8 (length words - b * 8) ≡ 8 = omega arith in
      let start : b * 8 ≡ 8 * b = omega arith in
      let next : 8 * b + 8 ≡ 8 * (b + 1) = omega arith in
      let places : b + suc k ≡ b + 1 + k = omega arith in
      rw (rounds, start, ones_from-ones_before 8 (8 * b) (omega arith), next, places)
        (get_or-rank_blocks left (b + 1) k (omega arith) (omega arith))

  low_ones_count :
      (i off : ℕ)
      → off < 64
      → ones_count64 (bit_and (get_or words i 0) (2 ^ off - 1))
        ≡ count_below off (λ j. has_id words (64 * i + j))
  low_ones_count i off h =
      let w = get_or words i 0 in
      let low : ℕ → Bool = λ j. bit (w % 2 ^ off) j == 1 in
      let whole : 64 ≡ off + (64 - off) = omega arith in
      let none_past =
        count_below_none (64 - off) (λ j. low (off + j))
          (λ j. ground (arith, bit-mod off w (off + j))) in
      let same =
        count_below_ext off low (λ j. has_id words (64 * i + j))
          (λ j p. rw (bit-mod off w j, has_id-word words i j (omega arith)) (ground arith)) in
      rw (bit_and_mask off w) (
        ones_count64-count_below (w % 2 ^ off)
        ∙ ap (λ (n : ℕ). count_below n low) whole
        ∙ omega (arith, count_below-add off (64 - off) low, none_past, same))

  -- The rank of a slot, by the blocks built from the words.
  pub rank-count_below :
      (c : Chd) (pos : ℕ)
      → c.words ≡ words
      → c.l1 ≡ build_rank words
      → pos < 64 * length words
      → rank c pos ≡ count_below pos (has_id words)
  unfolding rank build_rank
  rank-count_below c pos same blocks inside =
      let w = pos / 64 in
      let off = pos % 64 in
      let b = w / 8 in
      let nb = (length words + 7) / 8 in
      let block : get_or (rank_blocks words nb 0 0) b 0 ≡ ones_before words (b * 8) =
        get_or-rank_blocks nb 0 b (omega arith) (omega arith)
        ∙ ap (ones_before words) {x = 8 * (0 + b)} {y = b * 8} (omega arith) in
      let rest : ones_from words (w - b * 8) (b * 8) (ones_before words (b * 8))
          ≡ ones_before words w =
        ones_from-ones_before (w - b * 8) (b * 8) (omega arith)
        ∙ ap (ones_before words) {x = b * 8 + (w - b * 8)} {y = w} (omega arith) in
      let whole : pos ≡ 64 * w + off = omega arith in
      let all = count_below-add (64 * w) off (has_id words) in
      let most = count_below-le (64 * w + off) (has_id words) in
      let count : ones_before words w + count_below off (λ j. has_id words (64 * w + j))
          ≡ count_below pos (has_id words) =
        sym all ∙ ap (λ (n : ℕ). count_below n (has_id words)) (sym whole) in
      rw (same, blocks, block, rest)
        (elim (Bool-cases (ltb 0 off)) [
          | inl e ↦ rw (e, low_ones_count w off (omega arith)) (omega (arith, count, all, most))
          | inr e ↦
              let none_left : off ≡ 0 = ground arith in
              rw e
                (ap (λ (n : ℕ). count_below n (has_id words)) {x = 64 * w} {y = pos} (omega arith))
        ])
