-- ===== src/Mphf/Build.antt =====
-- internal/mphf/mphf.go: the construction of the perfect hash. A counter of type int32 is its bit
-- pattern, which is the number while the keys are fewer than 2 ^ 31.
pub mod Bitwise
pub mod Pack
pub mod Rank
pub mod Buckets
pub mod Place
pub mod Perfect
pub mod Correct
mod Examples
use setrixdb.Base.{
  ℕ, zero, suc, ◌+◌, ◌-◌, ◌*◌, ◌/◌, ◌%◌, ◌^◌, min, bit_or, Bool, true, false, ◌||◌, Option, none,
  some, List, [], ◌∷◌, map, length, get_or, set, replicate, ltb, leb, ◌==◌, if◌then◌else◌, u64, u32,
}
use setrixdb.Std.Bits.{len32}
use setrixdb.Mphf.{Chd, max_displacement, mix, hash_mod, bit_set, set_bit, ones_from}

-- `counts[j]++`
unfoldable pub bump : List ℕ → ℕ → List ℕ
bump counts j = set counts j (u32 (get_or counts j 0 + 1))

-- `for _, k := range keys { counts[c.h1(k)]++ }`, given the bucket of each key.
unfoldable pub count_keys : List ℕ → List ℕ → List ℕ
unfolding bump
count_keys counts [] = counts
count_keys counts (j ∷ buckets) = count_keys (bump counts j) buckets

-- `for j := …; j < int(NB); j++ { starts[j] = s; s += counts[j] }`: the rest of `starts`.
unfoldable pub starts_from : ℕ → List ℕ → List ℕ
starts_from s [] = []
starts_from s (c ∷ counts) = s ∷ starts_from (u32 (s + c)) counts

-- `for i, k := range keys { j := c.h1(k); keyAt[counts[j]] = uint32(i); counts[j]++ }` at `i`.
unfoldable pub fill_keys : ℕ → List ℕ → List ℕ → List ℕ → List ℕ × List ℕ
unfolding bump
fill_keys i [] ends key_at = (ends, key_at)
fill_keys i (j ∷ buckets) ends key_at =
    fill_keys (i + 1) buckets (bump ends j) (set key_at (get_or ends j 0) (u32 i))

-- `for j := …; j < int(NB); j++ { if counts[j] > starts[j] { order = append(order, int32(j)) } }`
unfoldable pub nonempty_from : ℕ → List ℕ → List ℕ → List ℕ
nonempty_from j (s ∷ starts) (e ∷ ends) =
    let rest = nonempty_from (j + 1) starts ends in if ltb s e then j ∷ rest else rest
nonempty_from j [] ends = []
nonempty_from j (s ∷ starts) [] = []

-- What `placeAll` reads: the size of the table, the keys by bucket, and the second hash of each key.
pub record Groups : Type 0 where
  pub slots : ℕ
  pub key_at : List ℕ
  pub starts : List ℕ
  pub ends : List ℕ
  pub h2_vals : List ℕ

-- `(h2vals[keyAt[a]] + d) % M`
unfoldable pub slot : Groups → ℕ → ℕ → ℕ
slot g d a = u64 (get_or g.h2_vals (get_or g.key_at a 0) 0 + d) % g.slots

-- `for b := lo; b < a; b++ { if … == posA { good = false; break } }` at `b`, with so many rounds left.
unfoldable pub clashes : Groups → ℕ → ℕ → ℕ → ℕ → Bool
unfolding slot
clashes g d pos zero b = false
clashes g d pos (suc left) b =
    let rest = clashes g d pos left (b + 1) in if slot g d b == pos then true else rest

-- `for a := lo; a < hi && good; a++ { … }` at `a`, with so many rounds left: `good` at the end.
unfoldable pub all_free : Groups → List ℕ → ℕ → ℕ → ℕ → ℕ → Bool
unfolding slot clashes bit_set
all_free g words d lo zero a = true
all_free g words d lo (suc left) a =
    let rest = all_free g words d lo left (a + 1) in
    if bit_set words (slot g d a) || clashes g d (slot g d a) (a - lo) lo then false else rest

-- `for d := …; d < maxDisplacement && !ok; d++ { … }` at `d`, with so many rounds left.
unfoldable pub find_displacement : Groups → List ℕ → ℕ → ℕ → ℕ → ℕ → Option ℕ
unfolding all_free
find_displacement g words lo count zero d = none
find_displacement g words lo count (suc left) d =
    let rest = find_displacement g words lo count left (d + 1) in
    if all_free g words d lo count lo then some d else rest

-- `for a := lo; a < hi; a++ { setBit(c.words, …) }` at `a`, with so many rounds left.
unfoldable pub occupy : Groups → List ℕ → ℕ → ℕ → ℕ → List ℕ
unfolding slot set_bit
occupy g words d zero a = words
occupy g words d (suc left) a = occupy g (set_bit words (slot g d a)) d left (a + 1)

unfoldable pub bucket_size : Groups → ℕ → ℕ
bucket_size g j = get_or g.ends j 0 - get_or g.starts j 0

-- `placeAll`: `c.words` and `G` as it leaves them, or `none` for false; the caller clears both then.
unfoldable pub place_all : Groups → List ℕ → List ℕ → List ℕ → Option (List ℕ × List ℕ)
unfolding find_displacement occupy bucket_size
place_all g [] words displacements = some (words, displacements)
place_all g (j ∷ order) words displacements =
    let lo = get_or g.starts j 0 in
    elim (find_displacement g words lo (bucket_size g j) max_displacement 0) [
      | none ↦ none
      | some d ↦
          place_all g order (occupy g words d (bucket_size g j) lo) (set displacements j (u32 d))
    ]

-- `for _, d := range G { if d > maxD { maxD = d } }`
unfoldable pub max_of : ℕ → List ℕ → ℕ
max_of m [] = m
max_of m (d ∷ displacements) = max_of (if ltb m d then d else m) displacements

-- The two writes of `packG` at the bit position `bp`.
unfoldable pub or_at : List ℕ → ℕ → ℕ → List ℕ
or_at words i v = set words i (bit_or (get_or words i 0) v)

unfoldable pub put_bits : List ℕ → ℕ → ℕ → ℕ → List ℕ
unfolding or_at
put_bits gpack w bp v =
    let wi = bp / 64 in
    let off = bp % 64 in
    let first = or_at gpack wi (u64 (v * 2 ^ off)) in
    if ltb 64 (off + w) then or_at first (wi + 1) (v / 2 ^ (64 - off)) else first

-- `for j := …; j < int(c.NB); j++ { … }` at `j`, with so many rounds left.
unfoldable pub pack_loop : ℕ → List ℕ → ℕ → ℕ → List ℕ → List ℕ
unfolding put_bits
pack_loop w displacements zero j gpack = gpack
pack_loop w displacements (suc left) j gpack =
    pack_loop w displacements left (j + 1) (put_bits gpack w (j * w) (get_or displacements j 0))

-- `packG`: the width and the words.
unfoldable pub width_of : List ℕ → ℕ
unfolding max_of
width_of displacements = let w = len32 (max_of 0 displacements) in if w == 0 then 1 else w

unfoldable pub pack_g : ℕ → List ℕ → List ℕ
unfolding pack_loop width_of
pack_g nb displacements =
    let w = width_of displacements in
    pack_loop w displacements nb 0 (replicate ((nb * w + 63) / 64 + 1) 0)

-- `for b := …; b < nb; b++ { c.l1[b] = total; for w := b*8; w < (b+1)*8 && w < nw; w++ { … } }` at `b`,
-- with so many rounds left, then `c.l1[nb] = total`.
unfoldable pub rank_blocks : List ℕ → ℕ → ℕ → ℕ → List ℕ
rank_blocks words zero b total = total ∷ []
rank_blocks words (suc left) b total =
    total
    ∷ rank_blocks words left (b + 1) (ones_from words (min 8 (length words - b * 8)) (b * 8) total)

unfoldable pub build_rank : List ℕ → List ℕ
unfolding rank_blocks
build_rank words = rank_blocks words ((length words + 7) / 8) 0 0

-- The grouping of the keys by bucket; `arrange` stands for `sort.Slice` by descending size.
pub record Grouped : Type 0 where
  pub key_at : List ℕ
  pub starts : List ℕ
  pub ends : List ℕ

unfoldable pub group_keys : ℕ → List ℕ → Grouped
unfolding count_keys starts_from fill_keys
group_keys nb buckets =
    let starts = starts_from 0 (count_keys (replicate nb 0) buckets) in
    let (ends, key_at) = fill_keys 0 buckets starts (replicate (length buckets) 0) in
    record { key_at = key_at; starts = starts; ends = ends }

-- An attempt with the seed: the words and `G`.
unfoldable pub attempt_with : ℕ → ℕ → Grouped → List ℕ → List ℕ → ℕ → Option (List ℕ × List ℕ)
unfolding place_all
attempt_with m nb grouped order keys seed2 =
    place_all
      (record {
        slots = m;
        key_at = grouped.key_at;
        starts = grouped.starts;
        ends = grouped.ends;
        h2_vals = map (hash_mod seed2 m) keys;
      })
      order (replicate ((m + 63) / 64) 0) (replicate nb 0)

unfoldable pub finish : ℕ → ℕ → ℕ → ℕ → ℕ → List ℕ → List ℕ → Chd
unfolding pack_g width_of build_rank
finish n m nb seed1 seed2 words displacements = record {
  n = u32 n;
  m = m;
  nb = nb;
  gpack = pack_g nb displacements;
  gw = width_of displacements;
  max_d = max_of 0 displacements;
  words = words;
  l1 = build_rank words;
  seed1 = seed1;
  seed2 = seed2;
}

-- `for attempt := …; attempt < maxAttempts; attempt++ { … }` at `attempt`, with so many rounds left.
unfoldable pub attempts : ℕ → ℕ → Grouped → List ℕ → List ℕ → ℕ → ℕ → ℕ → Option Chd
unfolding attempt_with finish
attempts m nb grouped order keys seed zero attempt = none
attempts m nb grouped order keys seed (suc left) attempt =
    let seed2 = mix (u64 (u64 (seed + 1) + u64 (attempt * 0x9E3779B97F4A7C15))) in
    let rest = attempts m nb grouped order keys seed left (attempt + 1) in
    elim (attempt_with m nb grouped order keys seed2) [
      | none ↦ rest
      | some (words, displacements) ↦
          some (finish (length keys) m nb seed seed2 words displacements)
    ]

-- `BuildOpts`. `buckets` is `uint32(float64(n)/lambda)` and `table` is `uint32(float64(n)*(1+epsilon))`.
unfoldable pub build_opts : (List ℕ → List ℕ) → List ℕ → ℕ → ℕ → ℕ → Option Chd
unfolding group_keys nonempty_from attempts
build_opts arrange keys buckets table seed =
    let nb = u32 (buckets + 1) in
    let m₁ = u32 (table + 1) in
    let m = if leb m₁ nb then u32 (nb + 1) else m₁ in
    let grouped = group_keys nb (map (hash_mod seed nb) keys) in
    let order = arrange (nonempty_from 0 grouped.starts grouped.ends) in
    if length keys == 0
    then some (record {
      n = 0;
      m = 0;
      nb = 0;
      gpack = [];
      gw = 0;
      max_d = 0;
      words = [];
      l1 = [];
      seed1 = 0;
      seed2 = 0;
    })
    else attempts m nb grouped order keys seed 1024 0

-- What Go's floating point and `sort.Slice` give to `Build` at its load factor: the rearrangement, and
-- by the number of keys n the numbers `uint32(float64(n)/lambda)` and `uint32(float64(n)*(1+epsilon))`.
pub record Sizes : Type 0 where
  pub arrange : List ℕ → List ℕ
  pub buckets : ℕ → ℕ
  pub table : ℕ → ℕ

unfoldable pub build : Sizes → List ℕ → ℕ → Option Chd
unfolding build_opts
build sizes keys seed =
    build_opts sizes.arrange keys (sizes.buckets (length keys)) (sizes.table (length keys)) seed
