-- ===== src/Pmp/Bitmap.antt =====
-- The macros of sm/src/pmp.h on a 32-bit bitmap, at an index below 32.
use keystone_workspace.Base.{ℕ, ◌^◌, ◌<◌, ◌≡◌, Bool, not, ◌&&◌, ◌||◌, arith, ◌==◌}
use keystone_workspace.Base.Words.{bit, band, bor, bnot, shl, bit-band, bit-bor, bit-bnot}
use keystone_workspace.Base.Words.Masks.{shl-one, bit-pow, band-pow, pow_pos}

unfoldable pub set_bit : ℕ → ℕ → ℕ
set_bit bitmap n = bor 32 bitmap (shl 32 1 n)

unfoldable pub unset_bit : ℕ → ℕ → ℕ
unset_bit bitmap n = band 32 bitmap (bnot 32 (shl 32 1 n))

unfoldable pub test_bit : ℕ → ℕ → Bool
test_bit bitmap n = not (band 32 bitmap (shl 32 1 n) == 0)

pub test_bit_lem : (b n : ℕ) → n < 32 → test_bit b n ≡ bit b n
unfolding test_bit
test_bit_lem b n h = rw (shl-one 32 n h, band-pow 32 b n h) (ground (arith, pow_pos n))

pub test_bit-set_bit :
    (b n m : ℕ) → n < 32 → m < 32 → test_bit (set_bit b n) m ≡ (test_bit b m || n == m)
unfolding set_bit
test_bit-set_bit b n m h k = rw (
  test_bit_lem (bor 32 b (shl 32 1 n)) m k,
  test_bit_lem b m k,
  shl-one 32 n h,
  bit-bor 32 b (2 ^ n) m k,
  bit-pow n m,
)

pub test_bit-unset_bit :
    (b n m : ℕ) → n < 32 → m < 32 → test_bit (unset_bit b n) m ≡ (test_bit b m && not (n == m))
unfolding unset_bit
test_bit-unset_bit b n m h k = rw (
  test_bit_lem (band 32 b (bnot 32 (shl 32 1 n))) m k,
  test_bit_lem b m k,
  shl-one 32 n h,
  bit-band 32 b (bnot 32 (2 ^ n)) m k,
  bit-bnot 32 (2 ^ n) m k,
  bit-pow n m,
)
