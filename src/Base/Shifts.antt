-- ===== src/Base/Shifts.antt =====
-- The digits of a shifted number.
use Prim.Native.Nat.{ℕ, zero, suc, ◌+◌, ◌-◌, ◌*◌, ◌/◌, ◌%◌, ◌^◌}
use mathlib.Core.Path.{◌≡◌, sym, ap, ◌∙◌}
use native.Mathlib.Omega.{arith}
use native.Mathlib.Nat.{pow-suc, div-div-eq-div-mul}
use setrixdb.Base.Tests.{ltb, if◌then◌else◌}
use setrixdb.Base.Bits.{bit}

pub bit-shift_right : (k w i : ℕ) → bit (w / 2 ^ k) i ≡ bit w (k + i)
unfolding bit
bit-shift_right zero w i =
    ap (λ (t : ℕ). bit t i) {x = w / 2 ^ 0} {y = w} (omega arith)
    ∙ ap (bit w) {x = i} {y = 0 + i} (omega arith)
bit-shift_right (suc k) w i =
    let next : suc k + i ≡ suc (k + i) = omega arith in
    let halves : w / 2 ^ suc k ≡ w / 2 / 2 ^ k =
      ap (λ (t : ℕ). w / t) {x = 2 ^ suc k} {y = 2 * 2 ^ k} (omega (arith, pow-suc 2 k))
      ∙ sym (div-div-eq-div-mul w 2 (2 ^ k)) in
    rw (next, halves) (bit-shift_right k (w / 2) i)

pub bit-shift_left : (k w i : ℕ) → bit (w * 2 ^ k) i ≡ (if ltb i k then 0 else bit w (i - k))
unfolding bit
bit-shift_left zero w i =
    let whole : w * 2 ^ 0 ≡ w = omega arith in
    let same : i - 0 ≡ i = omega arith in rw (whole, same) (ground arith)
bit-shift_left (suc k) w zero =
    let even : w * 2 ^ suc k % 2 ≡ 0 = omega (arith, ap (λ (t : ℕ). w * t) (pow-suc 2 k)) in
    even ∙ ground arith
bit-shift_left (suc k) w (suc i) =
    let halves : w * 2 ^ suc k / 2 ≡ w * 2 ^ k =
      ap (λ (t : ℕ). w * t / 2) {x = 2 ^ suc k} {y = 2 * 2 ^ k} (omega (arith, pow-suc 2 k))
      ∙ omega arith in
    let less : suc i - suc k ≡ i - k = omega arith in
    rw (halves, less) (bit-shift_left k w i ∙ ground arith)
