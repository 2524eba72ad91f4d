-- ===== src/Pmp/Sharing.antt =====
-- The bottom register, which regions of priority BOTTOM share, and `pmp_region_free_atomic`
-- (sm/src/pmp.c).
use keystone_workspace.Base.{ℕ, ◌-◌, ◌<◌, ◌≡◌, ◌≢◌, true, false, arith}
use keystone_workspace.Pmp.Bitmap.{test_bit, unset_bit, test_bit-unset_bit}
use keystone_workspace.Pmp.State.{
  pmp_max_n_region, pmp_n_reg, Pmp, is_pmp_region_valid, region_clear_all,
}
use keystone_workspace.Pmp.Init.{pmp_region_free}

-- A release takes the register of the region out of the bitmap, also where another valid region
-- has the same register: that one stays valid, with the register that now counts as free.
pub free_shared :
    (p : Pmp) (r s k : ℕ)
    → r < pmp_max_n_region
    → s < pmp_max_n_region
    → k < pmp_n_reg
    → r ≢ s
    → is_pmp_region_valid p r ≡ true
    → is_pmp_region_valid p s ≡ true
    → (p.regions r).reg_idx ≡ k
    → (p.regions s).reg_idx ≡ k
    → let q = (pmp_region_free p r).1 in
      (is_pmp_region_valid q s ≡ true)
      × ((q.regions s).reg_idx ≡ k)
      × (test_bit q.reg_bitmap k ≡ false)
unfolding pmp_region_free region_clear_all is_pmp_region_valid
free_shared p r s k hr hs hk n vr vs er es =
    let lr : r < 32 = omega (arith, hr) in
    let ls : s < 32 = omega (arith, hs) in
    let lk : k < 32 = omega (arith, hk) in
    let lk' : (p.regions r).reg_idx < 32 = ground arith in
    let l1 : (p.regions r).reg_idx - 1 < 32 = ground arith in
    (
      ground (arith, test_bit-unset_bit p.region_def_bitmap r s lr ls),
      ground arith,
      ground (
        arith,
        test_bit-unset_bit p.reg_bitmap (p.regions r).reg_idx k lk' lk,
        test_bit-unset_bit (unset_bit p.reg_bitmap (p.regions r).reg_idx)
            ((p.regions r).reg_idx - 1) k l1 lk,
      ),
    )
