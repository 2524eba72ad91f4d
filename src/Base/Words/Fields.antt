-- ===== src/Base/Words/Fields.antt =====
-- Words of a high and a low field: `|` on the low one, and its parts.
use Prim.Native.Nat.{ℕ, zero, suc, ◌+◌, ◌*◌, ◌/◌, ◌%◌, ◌^◌, ◌≤◌, ◌<◌}
use mathlib.Core.Path.{◌≡◌, ap}
use native.Mathlib.Omega.{arith}
use keystone_workspace.Base.Words.{bor}
use keystone_workspace.Base.Words.Masks.{pow_double}

pub bor-zero_right : (w a : ℕ) → a < 2 ^ w → bor w a 0 ≡ a
unfolding bor
bor-zero_right zero a h = omega arith
bor-zero_right (suc w) a h = omega (arith, bor-zero_right w (a / 2) (omega (arith, pow_double w)))

pub bor_fields :
    (k w a c b : ℕ)
    → k ≤ w
    → c < 2 ^ k
    → b < 2 ^ k
    → a * 2 ^ k + c < 2 ^ w
    → bor w (a * 2 ^ k + c) b ≡ a * 2 ^ k + bor k c b
unfolding bor
bor_fields zero w a c b l h m s =
    let e : b ≡ 0 = omega arith in rw e (omega (arith, bor-zero_right w (a * 2 ^ 0 + c) s))
bor_fields (suc k) zero a c b l h m s = absurd (omega arith)
bor_fields (suc k) (suc w) a c b l h m s =
    let d : a * 2 ^ suc k ≡ 2 * (a * 2 ^ k) = omega (arith, ap (λ (t : ℕ). a * t) (pow_double k)) in
    let ih =
      bor_fields k w a (c / 2) (b / 2) (omega arith) (omega (arith, pow_double k))
        (omega (arith, pow_double k)) (omega (arith, pow_double w)) in
    let half : (2 * (a * 2 ^ k) + c) / 2 ≡ a * 2 ^ k + c / 2 = omega arith in
    rw (d, half, ih) (omega arith)

pub bor_odd : (w a b : ℕ) → a % 2 ≡ 1 → bor (suc w) a b % 2 ≡ 1
unfolding bor
bor_odd w a b h = omega arith

pub bor-zero_left : (w b : ℕ) → b < 2 ^ w → bor w 0 b ≡ b
unfolding bor
bor-zero_left zero b h = omega arith
bor-zero_left (suc w) b h = omega (arith, bor-zero_left w (b / 2) (omega (arith, pow_double w)))
