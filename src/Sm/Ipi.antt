-- ===== src/Sm/Ipi.antt =====
-- PMP changes on every hart (sm/src/ipi.c, and `pmp_set_global`, `pmp_unset_global` of
-- sm/src/pmp.c), on one hart, and of the operating system's region (`osm_pmp_set` of sm/src/sm.c).
use keystone_workspace.Base.{ℕ, ◌%◌, not, if◌then◌else◌, update}
use keystone_workspace.Base.Outcome.{Outcome, ret, hang, ◌>>=◌}
use keystone_workspace.Pmp.State.{Pmp, pmp_no_perm, is_pmp_region_valid}
use keystone_workspace.Pmp.Init.{pmp_success, region_invalid}
use keystone_workspace.Pmp.Regs.{PmpRegs, pmp_set_keystone, pmp_unset}
use keystone_workspace.Sm.State.{Machine, OpenSbi}

pub data IpiType : Type 0 where
  set_type unset_type : IpiType

-- The registers after a handler; a handler that hangs is left out of the account.
abbrev settled : PmpRegs → Outcome (ℕ × PmpRegs) → PmpRegs
settled old (ret (code, regs)) = regs
settled old hang = old

unfoldable pub sbi_pmp_ipi_local_update : Pmp → IpiType → ℕ → ℕ → PmpRegs → PmpRegs
sbi_pmp_ipi_local_update p set_type rid perm regs =
    settled regs (pmp_set_keystone p rid (perm % 256) regs)
sbi_pmp_ipi_local_update p unset_type rid perm regs = settled regs (pmp_unset p rid regs)

unfoldable pub send_and_sync_pmp_ipi : OpenSbi → Machine → ℕ → IpiType → ℕ → Machine
unfolding sbi_pmp_ipi_local_update
send_and_sync_pmp_ipi sbi m rid type perm = record m {
  pmp_regs =
      sbi.tlb_request sbi.interruptible (sbi_pmp_ipi_local_update m.pmp type rid perm) m.pmp_regs;
}

unfoldable pub pmp_set_global : OpenSbi → Machine → ℕ → ℕ → ℕ × Machine
pmp_set_global sbi m rid perm =
    if not (is_pmp_region_valid m.pmp rid)
    then (region_invalid, m)
    else (pmp_success, send_and_sync_pmp_ipi sbi m rid set_type perm)

unfoldable pub pmp_unset_global : OpenSbi → Machine → ℕ → ℕ × Machine
pmp_unset_global sbi m rid =
    if not (is_pmp_region_valid m.pmp rid)
    then (region_invalid, m)
    else (pmp_success, send_and_sync_pmp_ipi sbi m rid unset_type pmp_no_perm)

-- `pmp_set_keystone` on the hart that runs.
unfoldable pub local_pmp_set : Machine → ℕ → ℕ → ℕ → Outcome (ℕ × Machine)
local_pmp_set m hart rid perm = do
  (code, regs) ← pmp_set_keystone m.pmp rid perm (m.pmp_regs hart)
  ret (code, record m { pmp_regs = update m.pmp_regs hart regs })

unfoldable pub osm_pmp_set : Machine → ℕ → ℕ → Outcome (ℕ × Machine)
osm_pmp_set m hart perm = local_pmp_set m hart m.os_region_id perm
