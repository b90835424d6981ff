-- ===== src/Addb/Kernel/Scan.antt =====
-- The branchless scan decides membership.
use setrixdb.Base.{
  ℕ, ◌+◌, ◌-◌, ◌<◌, bit_or, bit_xor, ◌≡◌, ◌≢◌, refl, sym, ◌∙◌, ap, Bool, true, false, ◌||◌, List,
  [], ◌∷◌, elem, ◌==◌, if◌then◌else◌, u64, u64_mod, complement, arith, inl, inr, Below, Bool-cases,
  ==_iff, bit_xor-eq_zero_iff, bit_xor-lt, le-bit_or, bit_or-lt,
}
use setrixdb.Addb.Kernel.{equal_word, contains_loop, contains}

-- Equal words give 1.
equal_word_self : (v : ℕ) → equal_word v v ≡ 1
unfolding equal_word
equal_word_self v = rw ((bit_xor-eq_zero_iff v v).1 refl)

-- Words that differ give 0: the top bit of `x | -x` is set.
equal_word_ne : (v q : ℕ) → v < u64_mod → q < u64_mod → v ≢ q → equal_word v q ≡ 0
unfolding equal_word
equal_word_ne v q hv hq ne =
    let x = bit_xor v q in
    let y = u64 (complement x + 1) in
    let fits : x < u64_mod = bit_xor-lt 64 v q hv hq in
    let pos : x ≢ 0 = λ e. ne ((bit_xor-eq_zero_iff v q).0 e) in
    let minus : y ≡ u64_mod - x = omega arith in
    let above = le-bit_or x y in
    let below : bit_or x y < u64_mod = bit_or-lt 64 x y fits (omega arith) in
    omega (arith, above, below, minus, fits, pos)

equal_word_lem : (v q : ℕ) → v < u64_mod → q < u64_mod → equal_word v q ≡ (if v == q then 1 else 0)
equal_word_lem v q hv hq = elim (Bool-cases (v == q)) [
  | inl e ↦ rw e (ap (equal_word v) (sym ((==_iff v q).0 e)) ∙ equal_word_self v)
  | inr e ↦ rw e (equal_word_ne v q hv hq (ground arith))
]

contains_loop_lem :
    (seen : Bool) (shard : List ℕ) (q : ℕ)
    → Below u64_mod shard
    → q < u64_mod
    → contains_loop (if seen then 1 else 0) shard q ≡ (if seen || elem q shard then 1 else 0)
unfolding contains_loop
contains_loop_lem true [] q h hq = refl
contains_loop_lem false [] q h hq = refl
contains_loop_lem true (v ∷ shard) q h hq =
    rw (equal_word_lem v q h.0 hq) (elim (Bool-cases (v == q)) [
      | inl e ↦ rw e (contains_loop_lem true shard q h.1 hq)
      | inr e ↦ rw e (contains_loop_lem true shard q h.1 hq)
    ])
contains_loop_lem false (v ∷ shard) q h hq =
    rw (equal_word_lem v q h.0 hq) (elim (Bool-cases (v == q)) [
      | inl e ↦ rw e (contains_loop_lem true shard q h.1 hq)
      | inr e ↦ rw e (contains_loop_lem false shard q h.1 hq)
    ])

-- On 64-bit words, the branchless scan finds an ID exactly when the shard holds it.
pub contains-elem :
    (shard : List ℕ) (q : ℕ) → Below u64_mod shard → q < u64_mod → contains shard q ≡ elem q shard
unfolding contains
contains-elem shard q h hq =
    rw (contains_loop_lem false shard q h hq)
      (elim (Bool-cases (elem q shard)) [ inl e ↦ rw e refl | inr e ↦ rw e refl ])
