-- ===== src/Sm/Create.antt =====
-- `create_enclave` of sm/src/enclave.c, with the labels of its error path as functions.
pub mod Opened
pub mod Effect
pub mod Cases
pub mod Isolation
use keystone_workspace.Base.{
  ℕ, ◌+◌, ◌*◌, ◌/◌, Bool, true, false, not, ◌==◌, if◌then◌else◌, update, Option, none, some, List,
}
use keystone_workspace.Base.Outcome.{Outcome, ret, hang, ◌>>=◌}
use keystone_workspace.Base.Words.{bor, shl, shr}
use keystone_workspace.Pmp.State.{any, bottom, pmp_no_perm, Pmp}
use keystone_workspace.Pmp.Init.{InitResult, pmp_region_init, pmp_region_free}
use keystone_workspace.Sm.Codes.{success, illegal_argument, no_free_resource, pmp_failure}
use keystone_workspace.Sm.State.{
  fresh, region_epm, region_utm, EnclaveRegion, Enclave, CreateArgs, Hart, Machine, with_enclave,
  OpenSbi,
}
use keystone_workspace.Sm.Thread.{clean_state}
use keystone_workspace.Sm.Ipi.{pmp_set_global, pmp_unset_global}
use keystone_workspace.Sm.Measure.{Crypto, validate_and_hash_enclave}
use keystone_workspace.Sm.Enclave.{
  with_state, clean_enclave_memory, encl_alloc_eid, encl_free_eid, is_create_args_valid, params_of,
  platform_create_enclave,
}

-- The code, `*eidptr` where it was written, and the state.
pub record CreateResult : Type 0 where
  pub code : ℕ
  pub eid : Option ℕ
  pub machine : Machine

abbrev pub free_pmp : Machine → ℕ → Machine
free_pmp m rid = record m { pmp = (pmp_region_free m.pmp rid).1 }

-- The labels `free_encl_idx`, `free_region`, `free_shared_region` and `unset_region`.
unfoldable pub free_region : Machine → ℕ → ℕ → Machine
free_region m eid region = encl_free_eid (free_pmp m region) eid

unfoldable pub free_shared_region : Machine → ℕ → ℕ → ℕ → Machine
free_shared_region m eid region shared = free_region (free_pmp m shared) eid region

unfoldable pub unset_region : OpenSbi → Machine → ℕ → ℕ → ℕ → Machine
unset_region sbi m eid region shared =
    free_shared_region (pmp_unset_global sbi m region).1 eid region shared

abbrev pub create_failed : ℕ → Machine → CreateResult
create_failed code m = record { code = code; eid = none; machine = m }

-- SATP_MODE_SV39 << HGATP_MODE_SHIFT
abbrev pub satp_of : ℕ → ℕ
satp_of base = bor 64 (shr base 12) (shl 64 8 60)

-- The metadata of the new enclave.
unfoldable pub init_enclave : Enclave → CreateArgs → ℕ → ℕ → ℕ → Hart → Enclave
init_enclave e a eid region shared h = record e {
  eid = eid;
  regions =
      let one = update e.regions 0 (record { pmp_rid = region; type = region_epm }) in
      update one 1 (record { pmp_rid = shared; type = region_utm });
  encl_satp = satp_of a.epm_region.paddr;
  n_thread = 0;
  params = params_of a;
  thread = clean_state e.thread h;
}

-- An out-parameter that the caller reads only after success.
abbrev pub rid_or_zero : Option ℕ → ℕ
rid_or_zero none = 0
rid_or_zero (some rid) = rid

module _ (sbi : OpenSbi) (c : Crypto) (h : Hart) (a : CreateArgs) where
  -- From `validate_and_hash_enclave` on.
  unfoldable pub create_validated : Machine → ℕ → ℕ → ℕ → CreateResult
  create_validated m eid region shared =
      let (code, hash) = validate_and_hash_enclave c m.mem (m.enclaves eid).params in
      if not (code == 0)
      then create_failed code (unset_region sbi m eid region shared)
      else record {
        code = success;
        eid = some eid;
        machine = with_enclave m eid (record (m.enclaves eid) { hash = hash; state = fresh });
      }

  -- From the setting of the PMP registers on, with both regions allocated.
  unfoldable pub create_with_regions : Machine → ℕ → ℕ → ℕ → CreateResult
  create_with_regions m eid region shared =
      let (code, m1) = pmp_set_global sbi m region pmp_no_perm in
      if not (code == 0)
      then create_failed pmp_failure (free_shared_region m1 eid region shared)
      else let m2 = clean_enclave_memory sbi m1 a.utm_region.paddr a.utm_region.size in
        let m3 = with_enclave m2 eid (init_enclave (m2.enclaves eid) a eid region shared h) in
        let code = platform_create_enclave (m3.enclaves eid) in
        if not (code == 0)
        then create_failed code (unset_region sbi m3 eid region shared)
        else create_validated m3 eid region shared

  -- From the allocation of the regions on, with the id allocated.
  unfoldable pub create_with_eid : Machine → ℕ → Outcome CreateResult
  create_with_eid m eid = do
    epm ← pmp_region_init m.pmp a.epm_region.paddr a.epm_region.size any false
    let m1 = record m { pmp = epm.pmp }
    if not (epm.code == 0) then ret (create_failed pmp_failure (encl_free_eid m1 eid)) else do
      utm ← pmp_region_init epm.pmp a.utm_region.paddr a.utm_region.size bottom false
      let m2 = record m1 { pmp = utm.pmp }
      let region = rid_or_zero epm.rid
      if not (utm.code == 0)
          then ret (create_failed pmp_failure (free_region m2 eid region))
          else ret (create_with_regions m2 eid region (rid_or_zero utm.rid))

  unfoldable pub create_enclave : Machine → Outcome CreateResult
  create_enclave m =
      if not (is_create_args_valid a)
      then ret (create_failed illegal_argument m)
      else elim (encl_alloc_eid m) [
        | none ↦ ret (create_failed no_free_resource m)
        | some (eid, m1) ↦ create_with_eid m1 eid
      ]
