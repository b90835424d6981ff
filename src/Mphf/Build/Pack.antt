-- ===== src/Mphf/Build/Pack.antt =====
-- `packG` and `gval`: the displacements are read back as they were packed.
use native.Mathlib.Nat.{mul-le-mul_right, div-le_self}
use setrixdb.Base.{
  ltb, leb, ◌==◌, if◌then◌else◌, ltb→lt, trichotomy, Bool-cases, length, get_or, set, replicate,
  length-set, get_or-set_self, get_or-set_ne, get_or_out, get_or-replicate, length-replicate, bit,
  bit-of_zero, bit-bit_or, bit_ext, bit_high, bit_or-lt, bit-mod, bit_and_mask, bit-shift_right,
  bit-shift_left, u64_mod, u32_mod, u64, ℕ, zero, suc, ◌+◌, ◌-◌, ◌*◌, ◌/◌, ◌%◌, ◌^◌, ◌≤◌, ◌<◌, max,
  bit_and, bit_or, ◌≡◌, sym, ap, ◌∙◌, inl, inr, true, ◌&&◌, List, [], ◌∷◌, arith,
}
use setrixdb.Std.Bits.{len32, len32-lt}
use setrixdb.Mphf.{read_bits}
use setrixdb.Mphf.Build.{or_at, put_bits, pack_loop, max_of, width_of, pack_g}
use setrixdb.Mphf.Build.Bitwise.{digit, length-put_bits, digit-put_bits}

-- All numbers of the list are below `n`, the default of a read too.
abbrev pub AllLt : ℕ → List ℕ → Type 0
AllLt n xs = (i : ℕ) → get_or xs i 0 < n

scaled : (w a b : ℕ) → a ≤ b → a * w ≤ b * w
scaled w a b h = mul-le-mul_right w h

digit-pack_loop :
    (w : ℕ) (displacements : List ℕ) (left j : ℕ) (gpack : List ℕ) (i t : ℕ)
    → w ≤ 32
    → t < w
    → AllLt (2 ^ w) displacements
    → (j + left) * w / 64 < length gpack
    → digit (pack_loop w displacements left j gpack) (i * w + t) ≡ (
        if leb j i && ltb i (j + left)
        then max (digit gpack (i * w + t)) (bit (get_or displacements i 0) t)
        else digit gpack (i * w + t))
unfolding pack_loop
digit-pack_loop w displacements zero j gpack i t narrow inside small room = ground arith
digit-pack_loop w displacements (suc left) j gpack i t narrow inside small room =
    let v = get_or displacements j 0 in
    let put = put_bits gpack w (j * w) v in
    let rest =
      digit-pack_loop w displacements left (j + 1) put i t narrow inside small
        (omega (arith, length-put_bits gpack w (j * w) v)) in
    let here =
      digit-put_bits gpack w (j * w) v (i * w + t) narrow (small j)
        (omega (arith, scaled w (j + 1) (j + suc left) (omega arith))) in
    elim (trichotomy i j) [
      | inl before ↦ ground (arith, rest, here, scaled w (i + 1) j (omega arith))
      | inr (inl same) ↦
          let place : bit v (i * w + t - j * w) ≡ bit (get_or displacements i 0) t =
            rw same (ap (bit v) {x = j * w + t - j * w} {y = t} (omega arith)) in
          ground (arith, rest, here, place)
      | inr (inr after) ↦ ground (arith, rest, here, scaled w (j + 1) i (omega arith))
    ]

bit-read_bits_high : (gpack : List ℕ) (w j t : ℕ) → w ≤ t → bit (read_bits gpack w j) t ≡ 0
unfolding read_bits
bit-read_bits_high gpack w j t h =
    let masked : (v : ℕ) → bit (bit_and v (2 ^ w - 1)) t ≡ 0 =
      λ v. rw (bit_and_mask w v) (bit-mod w v t ∙ ground arith) in
    masked _

pub AllLt-set : (n : ℕ) (xs : List ℕ) (i v : ℕ) → v < n → AllLt n xs → AllLt n (set xs i v)
AllLt-set n xs i v h all k = elim (Bool-cases (i == k)) [
  | inl e ↦
      let same : k ≡ i = ground arith in
      elim (Bool-cases (ltb i (length xs))) [
        | inl within ↦ rw (same, get_or-set_self xs i v 0 (ground arith)) h
        | inr past ↦
            rw (get_or_out (set xs i v) k 0 (ground (arith, length-set xs i v)))
              (omega (arith, all k))
      ]
  | inr e ↦ rw (get_or-set_ne xs i k v 0 (ground arith)) (all k)
]

or_at-AllLt :
    (words : List ℕ) (i v : ℕ) → v < u64_mod → AllLt u64_mod words → AllLt u64_mod (or_at words i v)
unfolding or_at
or_at-AllLt words i v small all =
    AllLt-set u64_mod words i (bit_or (get_or words i 0) v)
      (bit_or-lt 64 (get_or words i 0) v (all i) small) all

put_bits-AllLt :
    (gpack : List ℕ) (w bp v : ℕ)
    → v < u64_mod
    → AllLt u64_mod gpack
    → AllLt u64_mod (put_bits gpack w bp v)
unfolding put_bits
put_bits-AllLt gpack w bp v small all =
    let wi = bp / 64 in
    let off = bp % 64 in
    let first = or_at-AllLt gpack wi (u64 (v * 2 ^ off)) (omega arith) all in
    let shifted : v / 2 ^ (64 - off) < u64_mod = omega (arith, div-le_self v (2 ^ (64 - off))) in
    elim (Bool-cases (ltb 64 (off + w))) [
      | inl wide ↦ rw wide (
          or_at-AllLt (or_at gpack wi (u64 (v * 2 ^ off))) (wi + 1) (v / 2 ^ (64 - off)) shifted
            first)
      | inr single ↦ rw single first
    ]

pack_loop-AllLt :
    (w : ℕ) (displacements : List ℕ) (left j : ℕ) (gpack : List ℕ)
    → AllLt u64_mod displacements
    → AllLt u64_mod gpack
    → AllLt u64_mod (pack_loop w displacements left j gpack)
unfolding pack_loop
pack_loop-AllLt w displacements zero j gpack small all = all
pack_loop-AllLt w displacements (suc left) j gpack small all =
    pack_loop-AllLt w displacements left (j + 1)
      (put_bits gpack w (j * w) (get_or displacements j 0)) small
      (put_bits-AllLt gpack w (j * w) (get_or displacements j 0) (small j) all)

-- What is read: the digits of the row from `j * w` on.
bit-read_bits :
    (gpack : List ℕ) (w j t : ℕ)
    → w ≤ 32
    → t < w
    → AllLt u64_mod gpack
    → bit (read_bits gpack w j) t ≡ digit gpack (j * w + t)
unfolding read_bits
bit-read_bits gpack w j t narrow inside words =
    let bp = j * w in
    let wi = bp / 64 in
    let off = bp % 64 in
    let low = get_or gpack wi 0 / 2 ^ off in
    let next = get_or gpack (wi + 1) 0 in
    let high = u64 (next * 2 ^ (64 - off)) in
    let masked : (v : ℕ) → bit (bit_and v (2 ^ w - 1)) t ≡ bit v t =
      λ v. rw (bit_and_mask w v) (bit-mod w v t ∙ ground arith) in
    let low_bit : bit low t ≡ bit (get_or gpack wi 0) (off + t) =
      bit-shift_right off (get_or gpack wi 0) t in
    let high_bit : bit high t ≡ (if ltb t (64 - off) then 0 else bit next (t - (64 - off))) =
      bit-mod 64 (next * 2 ^ (64 - off)) t ∙ ground (arith, bit-shift_left (64 - off) next t) in
    elim (Bool-cases (ltb (off + t) 64)) [
      | inl within ↦
          let word : (bp + t) / 64 ≡ wi = ground arith in
          let place : (bp + t) % 64 ≡ off + t = ground arith in
          rw (word, place)
            (masked _ ∙ elim (Bool-cases (ltb 64 (off + w))) [
              | inl wide ↦ rw wide (ground (arith, bit-bit_or low high t, low_bit, high_bit))
              | inr single ↦ rw single low_bit
            ])
      | inr beyond ↦
          let word : (bp + t) / 64 ≡ wi + 1 = ground arith in
          let place : (bp + t) % 64 ≡ t - (64 - off) = ground arith in
          rw (word, place)
            (masked _
              ∙ (let wide : ltb 64 (off + w) ≡ true = ground arith in
                  let none_low = bit_high 64 (get_or gpack wi 0) (off + t) (words wi) in
                  rw wide (ground (arith, bit-bit_or low high t, low_bit, high_bit, none_low))))
    ]

max_of-le : (m : ℕ) (displacements : List ℕ) → m ≤ max_of m displacements
unfolding max_of
max_of-le m [] = omega arith
max_of-le m (d ∷ displacements) = ground (arith, max_of-le (if ltb m d then d else m) displacements)

max_of-AllLe :
    (m : ℕ) (displacements : List ℕ) (i : ℕ) → get_or displacements i 0 ≤ max_of m displacements
unfolding max_of
max_of-AllLe m [] i = omega arith
max_of-AllLe m (d ∷ displacements) zero =
    let next = if ltb m d then d else m in ground (arith, max_of-le next displacements)
max_of-AllLe m (d ∷ displacements) (suc i) = max_of-AllLe (if ltb m d then d else m) displacements i

max_of-lt :
    (m n : ℕ) (displacements : List ℕ) → m < n → AllLt n displacements → max_of m displacements < n
unfolding max_of
max_of-lt m n [] h all = h
max_of-lt m n (d ∷ displacements) h all =
    max_of-lt (if ltb m d then d else m) n displacements (ground (arith, all 0)) (λ i. all (suc i))

width_lem :
    (displacements : List ℕ)
    → AllLt u32_mod displacements
    → (0 < width_of displacements)
      × (width_of displacements ≤ 32)
      × AllLt (2 ^ width_of displacements) displacements
unfolding width_of
width_lem displacements small =
    let most = max_of 0 displacements in
    let (fits, short) = len32-lt most (max_of-lt 0 u32_mod displacements (omega arith) small) in
    elim (Bool-cases (len32 most == 0)) [
      | inl e ↦
          let none_used : len32 most ≡ 0 = ground arith in
          rw e (
            omega arith,
            omega arith,
            λ i. omega (arith, rw none_used at fits, max_of-AllLe 0 displacements i),
          )
      | inr e ↦ rw e (ground arith, short, λ i. omega (arith, fits, max_of-AllLe 0 displacements i))
    ]

-- Every displacement of 32 bits is read back from the packed words as it was, at any width that the
-- largest of them needs.
pub read_bits-pack_g :
    (nb : ℕ) (displacements : List ℕ) (j : ℕ)
    → AllLt u32_mod displacements
    → j < nb
    → read_bits (pack_g nb displacements) (width_of displacements) j ≡ get_or displacements j 0
unfolding pack_g
read_bits-pack_g nb displacements j small inside =
    let w = width_of displacements in
    let size = (nb * w + 63) / 64 + 1 in
    let zeros : List ℕ = replicate size 0 in
    let row : List ℕ = pack_loop w displacements nb 0 zeros in
    let (positive, narrow, fits) = width_lem displacements small in
    let room : (0 + nb) * w / 64 < length zeros = omega (arith, length-replicate {A = ℕ} size 0) in
    let empty : (p : ℕ) → digit zeros p ≡ 0 =
      λ p. rw (get_or-replicate {A = ℕ} size (p / 64) 0) (bit-of_zero (p % 64)) in
    let words =
      pack_loop-AllLt w displacements nb 0 zeros (λ i. omega (arith, small i))
        (λ i. rw (get_or-replicate {A = ℕ} size i 0) (omega arith)) in
    bit_ext (read_bits row w j) (get_or displacements j 0) (λ t. elim (Bool-cases (ltb t w)) [
      | inl low ↦
          bit-read_bits row w j t narrow (ltb→lt t w low) words
          ∙ digit-pack_loop w displacements nb 0 zeros j t narrow (ltb→lt t w low) fits room
          ∙ ground (arith, empty (j * w + t))
      | inr high ↦
          bit-read_bits_high row w j t (ground arith)
          ∙ sym (bit_high w (get_or displacements j 0) t (fits j) (ground arith))
    ])
