-- ===== src/Sm/Boot.antt =====
-- The start of the monitor (`smm_init`, `osm_init` and `sm_init` of sm/src/sm.c). The hooks of the
-- generic platform return success, and `sm_copy_key` sets the keys that `Attest` is given.
use keystone_workspace.Base.{ℕ, true, false, not, ◌==◌, if◌then◌else◌, update, Option, none, some}
use keystone_workspace.Base.Outcome.{Outcome, ret, hang, ◌>>=◌}
use keystone_workspace.Pmp.State.{ulong_max, top, bottom, pmp_no_perm, pmp_all_perm, Pmp}
use keystone_workspace.Pmp.Init.{InitResult, pmp_region_init}
use keystone_workspace.Pmp.Regs.{pmp_init}
use keystone_workspace.Sm.State.{Machine}
use keystone_workspace.Sm.Ipi.{local_pmp_set}
use keystone_workspace.Sm.Enclave.{enclave_init_metadata}

abbrev pub smm_base : ℕ
smm_base = 0x8000_0000

abbrev pub smm_size : ℕ
smm_size = 0x20_0000

-- The region and the state; `none` is -1.
abbrev pub region_or_error : InitResult → Option ℕ × Pmp
region_or_error r = (if not (r.code == 0) then none else r.rid, r.pmp)

unfoldable pub smm_init : Pmp → Outcome (Option ℕ × Pmp)
smm_init p = do r ← pmp_region_init p smm_base smm_size top false; ret (region_or_error r)

unfoldable pub osm_init : Pmp → Outcome (Option ℕ × Pmp)
osm_init p = do r ← pmp_region_init p 0 ulong_max bottom true; ret (region_or_error r)

abbrev pub or_hang : Option ℕ → Outcome ℕ
or_hang none = hang
or_hang (some rid) = ret rid

-- What the cold-booting hart does before it sets `sm_init_done`.
unfoldable pub sm_init_cold : Machine → Outcome Machine
unfolding smm_init osm_init
sm_init_cold m = do
  s ← smm_init m.pmp
  sm ← or_hang s.0
  o ← osm_init s.1
  os ← or_hang o.0
  ret (enclave_init_metadata (record m { pmp = o.1; sm_region_id = sm; os_region_id = os }))

-- What every hart does after `sm_init_done`.
unfoldable pub sm_init_hart : Machine → ℕ → Outcome Machine
sm_init_hart m hart = do
  let m1 = record m { pmp_regs = update m.pmp_regs hart (pmp_init (m.pmp_regs hart)) }
  m2 ← local_pmp_set m1 hart m.sm_region_id pmp_no_perm
  m3 ← local_pmp_set m2.1 hart m.os_region_id pmp_all_perm
  ret m3.1
