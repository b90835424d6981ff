-- ===== src/Mphf/Build/Place.antt =====
-- `placeAll`: every key of a placed bucket has a slot of its own.
pub mod Order
use setrixdb.Base.{
  ◌==◌, ==_refl, Bool-cases, length, get_or, length-set, bit_and-two_pow_test, ℕ, zero, suc, ◌+◌,
  ◌-◌, ◌*◌, ◌/◌, ◌%◌, ◌≤◌, ◌<◌, ◌≡◌, refl, ◌∙◌, ◌≢◌, inl, inr, true, false, ◌||◌, some, List, [],
  arith,
}
use setrixdb.Std.Bits.{count_below, count_below_bump}
use setrixdb.Addb.Bitset.Laws.{has_id, has_id-written, written, shift_count, Fits}
use setrixdb.Mphf.{bit_set, set_bit}
use setrixdb.Mphf.Build.{Groups, slot, clashes, all_free, find_displacement, occupy}

pub bit_set-has_id : (words : List ℕ) (i : ℕ) → bit_set words i ≡ has_id words i
unfolding bit_set has_id
bit_set-has_id words i =
    rw (shift_count i, bit_and-two_pow_test (get_or words (i / 64) 0) (i % 64)) (ground arith)

set_bit-written : (words : List ℕ) (i : ℕ) → set_bit words i ≡ written words i
unfolding set_bit
set_bit-written words i = rw (shift_count i) refl

clashes_sound :
    (g : Groups) (d pos left b c : ℕ)
    → clashes g d pos left b ≡ false
    → b ≤ c
    → c < b + left
    → slot g d c ≢ pos
unfolding clashes
clashes_sound g d pos zero b c h low high = absurd (omega arith)
clashes_sound g d pos (suc left) b c h low high = elim (Bool-cases (b == c)) [
  | inl e ↦ let same : b ≡ c = ground arith in rw (← same) (ground arith)
  | inr e ↦ clashes_sound g d pos left (b + 1) c (ground arith) (ground arith) (omega arith)
]

-- Free slots, each of its own.
abbrev pub AreFree : Groups → List ℕ → ℕ → ℕ → ℕ → ℕ → Type 0
AreFree g words d lo from to =
    (b : ℕ)
    → from ≤ b
    → b < to
    → (has_id words (slot g d b) ≡ false) × ((c : ℕ) → lo ≤ c → c < b → slot g d c ≢ slot g d b)

pub all_free-AreFree :
    (g : Groups) (words : List ℕ) (d lo left a : ℕ)
    → lo ≤ a
    → all_free g words d lo left a ≡ true
    → AreFree g words d lo a (a + left)
unfolding all_free
all_free-AreFree g words d lo zero a low h b from to = absurd (omega arith)
all_free-AreFree g words d lo (suc left) a low h b from to = elim (Bool-cases (a == b)) [
  | inl e ↦
      let same : a ≡ b = ground arith in
      let clear : clashes g d (slot g d a) (a - lo) lo ≡ false = ground arith in
      rw (← same) (
        ground (arith, bit_set-has_id words (slot g d a)),
        λ c p q. clashes_sound g d (slot g d a) (a - lo) lo c clear p (omega arith),
      )
  | inr e ↦
      all_free-AreFree g words d lo left (a + 1) (omega arith) (ground arith) b (ground arith)
        (omega arith)
]

pub find_displacement-all_free :
    (g : Groups) (words : List ℕ) (lo count left d d' : ℕ)
    → find_displacement g words lo count left d ≡ some d'
    → (d' < d + left) × (all_free g words d' lo count lo ≡ true)
unfolding find_displacement
find_displacement-all_free g words lo count zero d d' h = cc
find_displacement-all_free g words lo count (suc left) d d' h =
    elim (Bool-cases (all_free g words d lo count lo)) [
      | inl e ↦ let same : d ≡ d' = ground arith in (omega arith, rw same at e)
      | inr e ↦
          let (less, free) =
            find_displacement-all_free g words lo count left (d + 1) d' (ground arith) in
          (omega arith, free)
    ]

-- With a slot for every hash, in the words.
module _ (g : Groups) (some_slots : 0 < g.slots) where
  pub length-occupy :
      (words : List ℕ) (d left a : ℕ) → length (occupy g words d left a) ≡ length words
  unfolding occupy set_bit
  length-occupy words d zero a = refl
  length-occupy words d (suc left) a =
      length-occupy (set_bit words (slot g d a)) d left (a + 1)
      ∙ length-set words (slot g d a / 64) _

  slot-Fits : (words : List ℕ) (d a : ℕ) → g.slots ≤ 64 * length words → Fits words (slot g d a)
  unfolding slot
  slot-Fits words d a room = omega arith

  has_id-set_bit :
      (words : List ℕ) (d a q : ℕ)
      → g.slots ≤ 64 * length words
      → has_id (set_bit words (slot g d a)) q ≡ (slot g d a == q || has_id words q)
  has_id-set_bit words d a q room =
      rw (set_bit-written words (slot g d a))
        (has_id-written words (slot g d a) (slot-Fits words d a room) q)

  length-set_bit : (words : List ℕ) (i : ℕ) → length (set_bit words i) ≡ length words
  unfolding set_bit
  length-set_bit words i = length-set words (i / 64) _

  pub occupy_keeps :
      (words : List ℕ) (d left a q : ℕ)
      → g.slots ≤ 64 * length words
      → has_id words q ≡ true
      → has_id (occupy g words d left a) q ≡ true
  unfolding occupy
  occupy_keeps words d zero a q room h = h
  occupy_keeps words d (suc left) a q room h =
      occupy_keeps (set_bit words (slot g d a)) d left (a + 1) q
        (omega (arith, length-set_bit words (slot g d a)))
        (ground (arith, has_id-set_bit words d a q room))

  pub occupy_sets :
      (words : List ℕ) (d left a b : ℕ)
      → g.slots ≤ 64 * length words
      → a ≤ b
      → b < a + left
      → has_id (occupy g words d left a) (slot g d b) ≡ true
  unfolding occupy
  occupy_sets words d zero a b room low high = absurd (omega arith)
  occupy_sets words d (suc left) a b room low high =
      let next = set_bit words (slot g d a) in
      let room' : g.slots ≤ 64 * length next = omega (arith, length-set_bit words (slot g d a)) in
      elim (Bool-cases (a == b)) [
        | inl e ↦
            let same : a ≡ b = ground arith in
            rw (← same) (
              occupy_keeps next d left (a + 1) (slot g d a) room'
                (ground (arith, has_id-set_bit words d a (slot g d a) room, ==_refl (slot g d a))))
        | inr e ↦ occupy_sets next d left (a + 1) b room' (ground arith) (omega arith)
      ]

  pub occupy_count :
      (n : ℕ) (words : List ℕ) (d left a : ℕ)
      → g.slots ≤ 64 * length words
      → count_below n (has_id (occupy g words d left a)) ≤ count_below n (has_id words) + left
  unfolding occupy
  occupy_count n words d zero a room = omega arith
  occupy_count n words d (suc left) a room =
      let next = set_bit words (slot g d a) in
      let one =
        count_below_bump n (has_id words) (has_id next) (slot g d a)
          (λ q. has_id-set_bit words d a q room) in
      omega (
        arith,
        one,
        occupy_count n next d left (a + 1) (omega (arith, length-set_bit words (slot g d a))),
      )
