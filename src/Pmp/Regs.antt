-- ===== src/Pmp/Regs.antt =====
-- The PMP registers of a hart, and the functions of sm/src/pmp.c that program them: PMP_SET,
-- PMP_UNSET (sm/src/pmp.h), `pmp_init`, `pmp_set_keystone` and `pmp_unset`.
pub mod Laws
pub mod Program
pub mod Reset
use keystone_workspace.Base.{
  ℕ, zero, suc, ◌+◌, ◌-◌, ◌*◌, ◌%◌, ◌/◌, Bool, true, false, not, ltb, if◌then◌else◌, update,
}
use keystone_workspace.Base.Outcome.{Outcome, ret, hang, ◌>>=◌}
use keystone_workspace.Base.Words.{band, bor, bnot, shl, shr}
use keystone_workspace.Pmp.State.{
  pmp_n_reg, pmp_per_group, pmp_all_perm, Pmp, region_needs_two_entries, region_pmpaddr_val,
  region_pmpcfg_val, is_pmp_region_valid,
}
use keystone_workspace.Pmp.Init.{pmp_success, region_invalid}

-- `addr n` is the register pmpaddr<n>, `cfg g` is pmpcfg<g>.
pub record PmpRegs : Type 0 where
  pub addr : ℕ → ℕ
  pub cfg : ℕ → ℕ

-- The configuration register of entry `n` on a 64-bit hart: LIST_OF_PMP_REGS.
abbrev pub group : ℕ → ℕ
group n = if ltb n 8 then 0 else 2

-- 0xff << 8*(n % PMP_PER_GROUP)
abbrev pub byte_mask : ℕ → ℕ
byte_mask n = shl 64 0xff (8 * (n % pmp_per_group))

unfoldable pub pmp_set_reg : PmpRegs → ℕ → ℕ → ℕ → PmpRegs
pmp_set_reg regs n pmpaddr pmpc =
    let oldcfg = regs.cfg (group n) in
    record {
      addr = update regs.addr n pmpaddr;
      cfg = update regs.cfg (group n) (bor 64 pmpc (band 64 oldcfg (bnot 64 (byte_mask n))));
    }

unfoldable pub pmp_unset_reg : PmpRegs → ℕ → PmpRegs
pmp_unset_reg regs n = record {
  addr = update regs.addr n 0;
  cfg = update regs.cfg (group n) (band 64 (regs.cfg (group n)) (bnot 64 (byte_mask n)));
}

-- `switch (n)` over LIST_OF_PMP_REGS, whose default case is a failing assertion.
abbrev pub switch_reg : ℕ → PmpRegs → Outcome PmpRegs
switch_reg n regs = if ltb n 16 then ret regs else hang

-- The loop of `pmp_init`, from entry `i` on. PMP_SET changes the variable `pmpcfg` that the loop
-- passes on.
unfoldable pub pmp_init_loop : ℕ → ℕ → ℕ → PmpRegs → PmpRegs
pmp_init_loop zero i pmpcfg regs = regs
pmp_init_loop (suc rounds) i pmpcfg regs =
    let next = bor 64 pmpcfg (band 64 (regs.cfg (group i)) (bnot 64 (byte_mask i))) in
    pmp_init_loop rounds (i + 1) next (pmp_set_reg regs i 0 pmpcfg)

unfoldable pub pmp_init : PmpRegs → PmpRegs
unfolding pmp_init_loop
pmp_init regs = pmp_init_loop pmp_n_reg 0 0 regs

-- The second register of a region that needs two.
abbrev pub second_entry : Pmp → ℕ → ℕ → (PmpRegs → PmpRegs) → PmpRegs → Outcome PmpRegs
second_entry p region_idx reg_idx write regs =
    if region_needs_two_entries p region_idx
    then switch_reg (reg_idx - 1) (write regs)
    else ret regs

unfoldable pub pmp_set_keystone : Pmp → ℕ → ℕ → PmpRegs → Outcome (ℕ × PmpRegs)
pmp_set_keystone p region_idx perm regs =
    if not (is_pmp_region_valid p region_idx)
    then ret (region_invalid, regs)
    else let perm_bits = band 8 perm pmp_all_perm in
      let reg_idx = (p.regions region_idx).reg_idx in
      let pmpcfg = region_pmpcfg_val p region_idx reg_idx perm_bits in
      let pmpaddr = region_pmpaddr_val p region_idx in
      let base = shr (p.regions region_idx).addr 2 in
      do
        one ← switch_reg reg_idx (pmp_set_reg regs reg_idx pmpaddr pmpcfg)
        two ← second_entry p region_idx reg_idx (λ r. pmp_set_reg r (reg_idx - 1) base 0) one
        ret (pmp_success, two)

unfoldable pub pmp_unset : Pmp → ℕ → PmpRegs → Outcome (ℕ × PmpRegs)
pmp_unset p region_idx regs =
    if not (is_pmp_region_valid p region_idx)
    then ret (region_invalid, regs)
    else let reg_idx = (p.regions region_idx).reg_idx in
      do
        one ← switch_reg reg_idx (pmp_unset_reg regs reg_idx)
        two ← second_entry p region_idx reg_idx (λ r. pmp_unset_reg r (reg_idx - 1)) one
        ret (pmp_success, two)
