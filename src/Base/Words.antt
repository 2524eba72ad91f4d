-- ===== src/Base/Words.antt =====
-- The bitwise operators of C on words of `w` bits, by their binary digits: `&`, `|`, `~` and `<<`.
-- A word is a number below `2 ^ w`; `bit a i` is digit `i` of `a`.
pub mod Masks
pub mod Shifts
pub mod Fields
use Prim.Native.Nat.{ℕ, zero, suc, ◌+◌, ◌-◌, ◌*◌, ◌/◌, ◌%◌, ◌^◌, ◌<◌, min, max}
use mathlib.Core.Path.{◌≡◌}
use mathlib.Core.Bool.{Bool, not, ◌&&◌, ◌||◌}
use native.Mathlib.Omega.{arith}
use keystone_workspace.Base.Tests.{◌==◌}

unfoldable pub bit : ℕ → ℕ → Bool
bit a zero = a % 2 == 1
bit a (suc i) = bit (a / 2) i

-- a & b
unfoldable pub band : ℕ → ℕ → ℕ → ℕ
band zero a b = 0
band (suc w) a b = min (a % 2) (b % 2) + 2 * band w (a / 2) (b / 2)

-- a | b
unfoldable pub bor : ℕ → ℕ → ℕ → ℕ
bor zero a b = 0
bor (suc w) a b = max (a % 2) (b % 2) + 2 * bor w (a / 2) (b / 2)

-- ~a
unfoldable pub bnot : ℕ → ℕ → ℕ
bnot zero a = 0
bnot (suc w) a = 1 - a % 2 + 2 * bnot w (a / 2)

-- a << k, its high bits dropped
unfoldable pub shl : ℕ → ℕ → ℕ → ℕ
shl w a k = (a * 2 ^ k) % 2 ^ w

-- a >> k
unfoldable pub shr : ℕ → ℕ → ℕ
shr a k = a / 2 ^ k

digit_split : (d r : ℕ) → d < 2 → ((d + 2 * r) % 2 ≡ d) × ((d + 2 * r) / 2 ≡ r)
digit_split d r h = omega arith

pub bit-band : (w a b i : ℕ) → i < w → bit (band w a b) i ≡ (bit a i && bit b i)
unfolding bit band
bit-band zero a b i h = absurd (omega arith)
bit-band (suc w) a b zero h = ground arith
bit-band (suc w) a b (suc i) h = ground (
  arith,
  digit_split (min (a % 2) (b % 2)) (band w (a / 2) (b / 2)),
  bit-band w (a / 2) (b / 2) i,
)

pub bit-bor : (w a b i : ℕ) → i < w → bit (bor w a b) i ≡ (bit a i || bit b i)
unfolding bit bor
bit-bor zero a b i h = absurd (omega arith)
bit-bor (suc w) a b zero h = ground arith
bit-bor (suc w) a b (suc i) h =
    ground (
      arith,
      digit_split (max (a % 2) (b % 2)) (bor w (a / 2) (b / 2)),
      bit-bor w (a / 2) (b / 2) i,
    )

pub bit-bnot : (w a i : ℕ) → i < w → bit (bnot w a) i ≡ not (bit a i)
unfolding bit bnot
bit-bnot zero a i h = absurd (omega arith)
bit-bnot (suc w) a zero h = ground arith
bit-bnot (suc w) a (suc i) h =
    ground (arith, digit_split (1 - a % 2) (bnot w (a / 2)), bit-bnot w (a / 2) i)
