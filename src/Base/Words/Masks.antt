-- ===== src/Base/Words/Masks.antt =====
-- Words of one bit, and the tests and writes that masks of one bit make.
use Prim.Native.Nat.{ℕ, zero, suc, ◌+◌, ◌-◌, ◌*◌, ◌/◌, ◌%◌, ◌^◌, ◌≤◌, ◌<◌}
use mathlib.Core.Path.{◌≡◌, refl, ◌∙◌, ap}
use mathlib.Core.Bool.{false}
use native.Mathlib.Omega.{arith}
use native.Mathlib.Nat.{
  pow-suc, pow-le-pow_right, one-le-pow, mod-eq_of_lt, mod-lt, div-add-mod, add-mul-mod_self_left,
}
use keystone_workspace.Base.Tests.{ltb, ◌==◌, if◌then◌else◌}
use keystone_workspace.Base.Words.{bit, band, bor, shl}

pub pow_double : (n : ℕ) → 2 ^ suc n ≡ 2 * 2 ^ n
pow_double n = omega (arith, pow-suc 2 n)

pub pow_pos : (n : ℕ) → 0 < 2 ^ n
pow_pos n = one-le-pow n 2 (omega arith)

pub pow_mono : {m n : ℕ} → m ≤ n → 2 ^ m ≤ 2 ^ n
pow_mono h = pow-le-pow_right (omega arith) h

pub pow_mono_lt : (m n : ℕ) → m < n → 2 ^ m < 2 ^ n
pow_mono_lt m n h = omega (arith, pow_mono {m = suc m} {n = n} h, pow_double m, pow_pos m)

pub bit_zero : (i : ℕ) → bit 0 i ≡ false
unfolding bit
bit_zero zero = refl
bit_zero (suc i) = bit_zero i

half-shift : (m k : ℕ) → m * 2 ^ suc k / 2 ≡ m * 2 ^ k
half-shift m k = omega (arith, ap (λ (t : ℕ). m * t) (pow_double k))

-- A shift by `k` places moves digit `j` to `j + k`.
pub bit-shift : (m k j : ℕ) → bit (m * 2 ^ k) (j + k) ≡ bit m j
unfolding bit
bit-shift m zero j =
    let e : m * 2 ^ 0 ≡ m = omega arith in let f : j + 0 ≡ j = omega arith in rw (e, f)
bit-shift m (suc k) j =
    let f : j + suc k ≡ suc (j + k) = omega arith in
    rw f (ap (λ (t : ℕ). bit t (j + k)) (half-shift m k) ∙ bit-shift m k j)

pow_parity : (n : ℕ) → (2 ^ suc n % 2 ≡ 0) × (2 ^ suc n / 2 ≡ 2 ^ n)
pow_parity n = omega (arith, pow_double n)

pub bit-pow : (n m : ℕ) → bit (2 ^ n) m ≡ (n == m)
unfolding bit
bit-pow zero zero = refl
bit-pow zero (suc m) = rw (bit_zero m) (ground arith)
bit-pow (suc n) zero = ground (arith, pow_parity n)
bit-pow (suc n) (suc m) = rw ((pow_parity n).1) (ground (arith, bit-pow n m))

band-zero : (w a : ℕ) → band w a 0 ≡ 0
unfolding band
band-zero zero a = refl
band-zero (suc w) a = omega (arith, band-zero w (a / 2))

pub band-pow : (w a n : ℕ) → n < w → band w a (2 ^ n) ≡ (if bit a n then 2 ^ n else 0)
unfolding bit band
band-pow zero a n h = absurd (omega arith)
band-pow (suc w) a zero h = ground (arith, band-zero w (a / 2))
band-pow (suc w) a (suc n) h =
    rw ((pow_parity n).0, (pow_parity n).1) (ground (arith, band-pow w (a / 2) n, pow_double n))

pub shl-one : (w n : ℕ) → n < w → shl w 1 n ≡ 2 ^ n
unfolding shl
shl-one w n h =
    let small : 2 ^ n < 2 ^ w = pow_mono_lt n w h in
    let e : 1 * 2 ^ n ≡ 2 ^ n = omega arith in rw e (mod-eq_of_lt small)

pub mod_double : (a m : ℕ) → 0 < m → a % (2 * m) ≡ a % 2 + 2 * (a / 2 % m)
mod_double a m h =
    let small : a % 2 + 2 * (a / 2 % m) < 2 * m = omega (arith, mod-lt (a / 2) h) in
    let whole : a ≡ a % 2 + 2 * (a / 2 % m) + 2 * m * (a / 2 / m) =
      omega (arith, ap (λ (t : ℕ). 2 * t) (div-add-mod (a / 2) m)) in
    ap (λ (t : ℕ). t % (2 * m)) whole
    ∙ add-mul-mod_self_left (a % 2 + 2 * (a / 2 % m)) (2 * m) (a / 2 / m)
    ∙ mod-eq_of_lt small

ones_step : (k : ℕ) → ((2 ^ suc k - 1) % 2 ≡ 1) × ((2 ^ suc k - 1) / 2 ≡ 2 ^ k - 1)
ones_step k = omega (arith, pow_double k, pow_pos k)

-- The remainder by a power of two is a mask of ones.
pub band_ones : (w a k : ℕ) → k ≤ w → band w a (2 ^ k - 1) ≡ a % 2 ^ k
unfolding band
band_ones w a zero h = omega (arith, band-zero w a)
band_ones zero a (suc k) h = absurd (omega arith)
band_ones (suc w) a (suc k) h =
    rw ((ones_step k).0, (ones_step k).1, pow_double k)
      (omega (arith, band_ones w (a / 2) k (omega arith), mod_double a (2 ^ k) (pow_pos k)))

pub bit_ones : (k j : ℕ) → bit (2 ^ k - 1) j ≡ ltb j k
unfolding bit
bit_ones zero j = bit_zero j ∙ (ground arith)
bit_ones (suc k) zero = ground (arith, ones_step k)
bit_ones (suc k) (suc j) = ap (λ (t : ℕ). bit t j) (ones_step k).1 ∙ bit_ones k j ∙ (ground arith)

bor-zero : (w : ℕ) → bor w 0 0 ≡ 0
unfolding bor
bor-zero zero = refl
bor-zero (suc w) = omega (arith, bor-zero w)

pub bor_lt : (w a b k : ℕ) → a < 2 ^ k → b < 2 ^ k → bor w a b < 2 ^ k
unfolding bor
bor_lt zero a b k h l = pow_pos k
bor_lt (suc w) a b zero h l =
    let e : a ≡ 0 = omega arith in
    let f : b ≡ 0 = omega arith in rw (e, f) (omega (arith, bor-zero w))
bor_lt (suc w) a b (suc k) h l = omega (
  arith,
  pow_double k,
  bor_lt w (a / 2) (b / 2) k (omega (arith, pow_double k)) (omega (arith, pow_double k)),
)

pub band_le : (w a b : ℕ) → band w a b ≤ b
unfolding band
band_le zero a b = omega arith
band_le (suc w) a b = omega (arith, band_le w (a / 2) (b / 2))
