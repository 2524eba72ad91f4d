-- ===== src/Sm/Destroy.antt =====
-- `destroy_enclave` of sm/src/enclave.c.
pub mod Wipe
use keystone_workspace.Base.{
  ℕ, zero, suc, ◌+◌, Bool, true, false, not, ◌&&◌, ◌||◌, leb, if◌then◌else◌, Option, none, some,
}
use keystone_workspace.Pmp.State.{pmp_region_get_addr, pmp_region_get_size}
use keystone_workspace.Pmp.Init.{pmp_region_free}
use keystone_workspace.Sm.Codes.{success, not_destroyable}
use keystone_workspace.Sm.State.{
  enclave_regions_max, destroying, stopped, state_num, region_none, region_utm, type_eq, Enclave,
  RuntimeParams, Machine, with_enclave, OpenSbi,
}
use keystone_workspace.Sm.Ipi.{pmp_unset_global}
use keystone_workspace.Sm.Enclave.{
  enclave_exists, with_state, clear_regions, get_enclave_region_index, encl_free_eid,
}
use keystone_workspace.Sm.Create.{free_pmp}

-- `enclaves[eid].state <= STOPPED`, for an enclave that exists
unfoldable pub is_destroyable : Machine → ℕ → Bool
is_destroyable m eid =
    enclave_exists m eid && leb (state_num (m.enclaves eid).state) (state_num stopped)

-- The section under `encl_lock`.
unfoldable pub destroy_begin : Machine → ℕ → Bool × Machine
destroy_begin m eid =
    if is_destroyable m eid then (true, with_state m eid destroying) else (false, m)

abbrev pub zero_params : RuntimeParams
zero_params = record {
  dram_base = 0;
  dram_size = 0;
  runtime_base = 0;
  user_base = 0;
  free_base = 0;
  untrusted_base = 0;
  untrusted_size = 0;
  free_requested = 0;
}

module _ (sbi : OpenSbi) where
  -- The body of the loop for a region that is neither invalid nor shared: its pages are cleared,
  -- and the region is released.
  unfoldable pub wipe_region : Machine → ℕ → Machine
  wipe_region m rid =
      let mem =
        sbi.memset m.mem (pmp_region_get_addr m.pmp rid) 0 (pmp_region_get_size m.pmp rid) in
      free_pmp (pmp_unset_global sbi (record m { mem = mem }) rid).1 rid

  -- The loop, `rounds` rounds from index `i`.
  unfoldable pub wipe_loop : ℕ → ℕ → ℕ → Machine → Machine
  wipe_loop zero i eid m = m
  wipe_loop (suc rounds) i eid m =
      let r = (m.enclaves eid).regions i in
      wipe_loop rounds (i + 1) eid (
        if type_eq r.type region_none || type_eq r.type region_utm
        then m
        else wipe_region m r.pmp_rid)

  unfoldable pub free_utm : Machine → ℕ → Machine
  free_utm m eid = elim (get_enclave_region_index m eid region_utm) [
    | none ↦ m
    | some i ↦ free_pmp m ((m.enclaves eid).regions i).pmp_rid
  ]

  unfoldable pub reset_enclave : Machine → ℕ → Machine
  reset_enclave m eid =
      let e = m.enclaves eid in
      with_enclave m eid (record e {
        encl_satp = 0;
        n_thread = 0;
        params = zero_params;
        regions = clear_regions enclave_regions_max 0 e.regions;
      })

  -- What follows the section under the lock.
  unfoldable pub destroy_rest : Machine → ℕ → Machine
  destroy_rest m eid =
      let wiped = wipe_loop enclave_regions_max 0 eid m in
      encl_free_eid (reset_enclave (free_utm wiped eid) eid) eid

  unfoldable pub destroy_enclave : Machine → ℕ → ℕ × Machine
  destroy_enclave m eid =
      let (destroyable, m1) = destroy_begin m eid in
      if not destroyable then (not_destroyable, m1) else (success, destroy_rest m1 eid)
