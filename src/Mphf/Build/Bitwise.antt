-- ===== src/Mphf/Build/Bitwise.antt =====
-- Words as one row of digits: digit `p` stands in word `p / 64` at place `p % 64`.
use setrixdb.Base.{
  ℕ, ◌+◌, ◌-◌, ◌*◌, ◌/◌, ◌%◌, ◌^◌, ◌≤◌, ◌<◌, max, bit_or, ◌≡◌, refl, ◌∙◌, ap, ◌&&◌, inl, inr, List,
  length, get_or, ltb, leb, ◌==◌, if◌then◌else◌, Bool-cases, trichotomy, ltb→lt, arith, u64, bit,
  bit-bit_or, bit-mod, bit_high, bit-shift_left, bit-shift_right, get_or-set_self, get_or-set_ne,
  length-set,
}
use setrixdb.Mphf.Build.{or_at, put_bits}

-- The digit, as a number.
abbrev pub digit : List ℕ → ℕ → ℕ
digit words p = bit (get_or words (p / 64) 0) (p % 64)

digit-or_at :
    (words : List ℕ) (i v p : ℕ)
    → i < length words
    → digit (or_at words i v) p
      ≡ (if p / 64 == i then max (digit words p) (bit v (p % 64)) else digit words p)
unfolding or_at
digit-or_at words i v p h = elim (Bool-cases (p / 64 == i)) [
  | inl e ↦
      let same : p / 64 ≡ i = ground arith in
      let old = get_or words i 0 in
      rw (e, same, get_or-set_self words i (bit_or old v) 0 h) (bit-bit_or old v (p % 64))
  | inr e ↦
      rw (e, get_or-set_ne words i (p / 64) (bit_or (get_or words i 0) v) 0 (ground arith)) refl
]

length-or_at : (words : List ℕ) (i v : ℕ) → length (or_at words i v) ≡ length words
unfolding or_at
length-or_at words i v = length-set words i (bit_or (get_or words i 0) v)

pub length-put_bits : (gpack : List ℕ) (w bp v : ℕ) → length (put_bits gpack w bp v) ≡ length gpack
unfolding put_bits
length-put_bits gpack w bp v =
    let wi = bp / 64 in
    let off = bp % 64 in
    let first = or_at gpack wi (u64 (v * 2 ^ off)) in
    ground (
      arith,
      length-or_at gpack wi (u64 (v * 2 ^ off)),
      length-or_at first (wi + 1) (v / 2 ^ (64 - off)),
    )

-- What a value of `w` digits written at `bp` adds.
pub digit-put_bits :
    (gpack : List ℕ) (w bp v p : ℕ)
    → w ≤ 32
    → v < 2 ^ w
    → (bp + w) / 64 < length gpack
    → digit (put_bits gpack w bp v) p
      ≡ (if leb bp p && ltb p (bp + w) then max (digit gpack p) (bit v (p - bp)) else digit gpack p)
unfolding put_bits
digit-put_bits gpack w bp v p narrow small room =
    let wi = bp / 64 in
    let off = bp % 64 in
    let pt = p % 64 in
    let first = or_at gpack wi (u64 (v * 2 ^ off)) in
    let low : bit (u64 (v * 2 ^ off)) pt ≡ (if ltb pt off then 0 else bit v (pt - off)) =
      bit-mod 64 (v * 2 ^ off) pt ∙ ground (arith, bit-shift_left off v pt) in
    let high : bit (v / 2 ^ (64 - off)) pt ≡ bit v (64 - off + pt) =
      bit-shift_right (64 - off) v pt in
    let one = digit-or_at gpack wi (u64 (v * 2 ^ off)) p (omega arith) in
    let two = digit-or_at first (wi + 1) (v / 2 ^ (64 - off)) p in
    let none_past : w ≤ p - bp → bit v (p - bp) ≡ 0 = bit_high w v (p - bp) small in
    elim (Bool-cases (ltb 64 (off + w))) [
      | inl wide ↦
          let both =
            two (
              omega (arith, length-or_at gpack wi (u64 (v * 2 ^ off)), ltb→lt 64 (off + w) wide)) in
          rw wide (elim (trichotomy (p / 64) wi) [
            | inl before ↦ ground (arith, both, one)
            | inr (inl here) ↦
                let place : bit v (pt - off) ≡ bit v (p - bp) =
                  ap (bit v) {x = pt - off} {y = p - bp} (omega arith) in
                ground (arith, both, one, low, place, none_past)
            | inr (inr after) ↦ elim (Bool-cases (p / 64 == wi + 1)) [
              | inl next ↦
                  let there : p / 64 ≡ wi + 1 = ground arith in
                  let place : bit v (64 - off + pt) ≡ bit v (p - bp) =
                    ap (bit v) {x = 64 - off + pt} {y = p - bp} (omega arith) in
                  ground (arith, both, one, high, place, none_past)
              | inr beyond ↦ ground (arith, both, one)
            ]
          ])
      | inr inside ↦ rw inside (elim (trichotomy (p / 64) wi) [
        | inl before ↦ ground (arith, one)
        | inr (inl here) ↦
            let place : bit v (pt - off) ≡ bit v (p - bp) =
              ap (bit v) {x = pt - off} {y = p - bp} (omega arith) in
            ground (arith, one, low, place, none_past)
        | inr (inr after) ↦ ground (arith, one)
      ])
    ]
