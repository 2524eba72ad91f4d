-- ===== src/Base/Words/Shifts.antt =====
-- The digits of a shifted word.
use native.Mathlib.Decide.{dec_lt}
use Prim.Native.Nat.{ℕ, zero, suc, ◌+◌, ◌-◌, ◌*◌, ◌/◌, ◌%◌, ◌^◌, ◌≤◌, ◌<◌}
use mathlib.Core.Path.{◌≡◌, ◌∙◌, ap}
use mathlib.Core.Bool.{true, false}
use native.Mathlib.Omega.{arith}
use keystone_workspace.Base.Tests.{ltb, ◌==◌, if◌then◌else◌}
use keystone_workspace.Base.Words.{bit, shl}
use keystone_workspace.Base.Words.Masks.{bit-shift, mod_double, pow_pos, pow_double}

pub bit-mod : (a w i : ℕ) → i < w → bit (a % 2 ^ w) i ≡ bit a i
unfolding bit
bit-mod a zero i h = absurd (omega arith)
bit-mod a (suc w) zero h =
    ap (λ (t : ℕ). t == 1)
      (omega (arith, ap (λ (t : ℕ). a % t) (pow_double w), mod_double a (2 ^ w) (pow_pos w)))
bit-mod a (suc w) (suc i) h =
    let half : a % 2 ^ suc w / 2 ≡ a / 2 % 2 ^ w =
      omega (arith, ap (λ (t : ℕ). a % t) (pow_double w), mod_double a (2 ^ w) (pow_pos w)) in
    ap (λ (t : ℕ). bit t i) half ∙ bit-mod (a / 2) w i (omega arith)

bit-shift_low : (a k i : ℕ) → i < k → bit (a * 2 ^ k) i ≡ false
unfolding bit
bit-shift_low a zero i h = absurd (omega arith)
bit-shift_low a (suc k) zero h =
    let even : a * 2 ^ suc k % 2 ≡ 0 = omega (arith, ap (λ (t : ℕ). a * t) (pow_double k)) in
    rw even
bit-shift_low a (suc k) (suc i) h =
    let half : a * 2 ^ suc k / 2 ≡ a * 2 ^ k =
      omega (arith, ap (λ (t : ℕ). a * t) (pow_double k)) in
    ap (λ (t : ℕ). bit t i) half ∙ bit-shift_low a k i (omega arith)

pub bit-shl : (w a k i : ℕ) → i < w → bit (shl w a k) i ≡ (if ltb i k then false else bit a (i - k))
unfolding shl
bit-shl w a k i h = elim (dec_lt i k) [
  | yes l ↦
      let t : ltb i k ≡ true = ground arith in
      rw t (bit-mod (a * 2 ^ k) w i h ∙ bit-shift_low a k i l)
  | no l ↦
      let t : ltb i k ≡ false = ground arith in
      let e : i ≡ i - k + k = omega arith in
      rw t (bit-mod (a * 2 ^ k) w i h ∙ ap (λ (j : ℕ). bit (a * 2 ^ k) j) e ∙ bit-shift a k (i - k))
]

-- The high digits of a number below 2 ^ w are clear.
pub bit_above : (a w i : ℕ) → a < 2 ^ w → w ≤ i → bit a i ≡ false
unfolding bit
bit_above a zero zero h l = let e : a ≡ 0 = omega arith in rw e
bit_above a zero (suc i) h l =
    let e : a / 2 < 2 ^ 0 = omega arith in bit_above (a / 2) zero i e (omega arith)
bit_above a (suc w) zero h l = absurd (omega arith)
bit_above a (suc w) (suc i) h l = bit_above (a / 2) w i (omega (arith, pow_double w)) (omega arith)
