-- ===== src/Sm/Enclave.antt =====
-- Enclave ids, regions, creation and destruction (sm/src/enclave.c). A call is one step: the
-- sections under `encl_lock` and the code between them run without another hart in between.
pub mod Valid
use keystone_workspace.Base.{
  ℕ, zero, suc, ◌+◌, ◌-◌, ◌*◌, ◌/◌, ◌%◌, ◌^◌, Bool, true, false, not, ◌&&◌, ◌||◌, ltb, leb, ◌==◌,
  if◌then◌else◌, update, Option, none, some, List, [],
}
use keystone_workspace.Base.Outcome.{Outcome, ret, hang, ◌>>=◌}
use keystone_workspace.Base.Words.{bor, shl, shr}
use keystone_workspace.Pmp.State.{
  Priority, any, bottom, pmp_no_perm, Pmp, pmp_region_get_addr, pmp_region_get_size,
}
use keystone_workspace.Pmp.Init.{InitResult, pmp_region_init, pmp_region_free}
use keystone_workspace.Sm.Codes.{
  success, illegal_argument, no_free_resource, pmp_failure, not_destroyable,
}
use keystone_workspace.Sm.State.{
  encl_max, enclave_regions_max, EnclaveState, invalid, destroying, allocated, fresh, stopped,
  running, state_num, RegionType, region_none, region_epm, region_utm, region_other, type_eq,
  EnclaveRegion, RuntimeParams, Enclave, CreateArgs, Hart, Machine, with_enclave, OpenSbi,
}
use keystone_workspace.Sm.Thread.{clean_state}
use keystone_workspace.Sm.Ipi.{pmp_set_global, pmp_unset_global}
use keystone_workspace.Sm.Measure.{Crypto, validate_and_hash_enclave}

abbrev pub is_invalid : EnclaveState → Bool
is_invalid invalid = true
is_invalid _ = false

-- ENCLAVE_EXISTS: a state of at least 0 in the source's numbers.
unfoldable pub enclave_exists : Machine → ℕ → Bool
enclave_exists m eid = ltb eid encl_max && leb 1 (state_num (m.enclaves eid).state)

abbrev pub with_state : Machine → ℕ → EnclaveState → Machine
with_state m eid s = with_enclave m eid (record (m.enclaves eid) { state = s })

-- The region table of an enclave with every entry REGION_INVALID, `rounds` entries from `i` on.
unfoldable pub clear_regions : ℕ → ℕ → (ℕ → EnclaveRegion) → ℕ → EnclaveRegion
clear_regions zero i regions = regions
clear_regions (suc rounds) i regions =
    clear_regions rounds (i + 1) (update regions i (record (regions i) { type = region_none }))

-- The loop of `enclave_init_metadata`, from enclave `eid` on; `platform_init_enclave` does nothing.
unfoldable pub init_metadata_loop : ℕ → ℕ → (ℕ → Enclave) → ℕ → Enclave
init_metadata_loop zero eid enclaves = enclaves
init_metadata_loop (suc rounds) eid enclaves =
    let e = enclaves eid in
    init_metadata_loop rounds (eid + 1) (
      update enclaves eid
        (record e { state = invalid; regions = clear_regions enclave_regions_max 0 e.regions }))

unfoldable pub enclave_init_metadata : Machine → Machine
enclave_init_metadata m = record m { enclaves = init_metadata_loop encl_max 0 m.enclaves }

unfoldable pub clean_enclave_memory : OpenSbi → Machine → ℕ → ℕ → Machine
clean_enclave_memory sbi m utbase utsize = record m { mem = sbi.memset m.mem utbase 0 utsize }

-- The loop of `encl_alloc_eid`: the first invalid enclave from `eid` on, or ENCL_MAX.
unfoldable pub alloc_loop : ℕ → ℕ → (ℕ → Enclave) → ℕ
alloc_loop zero eid enclaves = eid
alloc_loop (suc rounds) eid enclaves =
    let rest = alloc_loop rounds (eid + 1) enclaves in
    if is_invalid (enclaves eid).state then eid else rest

-- `none` is SBI_ERR_SM_ENCLAVE_NO_FREE_RESOURCE.
unfoldable pub encl_alloc_eid : Machine → Option (ℕ × Machine)
encl_alloc_eid m =
    let eid = alloc_loop encl_max 0 m.enclaves in
    if eid == encl_max then none else some (eid, with_state m eid allocated)

unfoldable pub encl_free_eid : Machine → ℕ → Machine
encl_free_eid m eid = with_state m eid invalid

-- The loop of `get_enclave_region_index`; `none` is -1.
unfoldable pub region_index_loop : ℕ → ℕ → (ℕ → EnclaveRegion) → RegionType → Option ℕ
region_index_loop zero i regions t = none
region_index_loop (suc rounds) i regions t =
    let rest = region_index_loop rounds (i + 1) regions t in
    if type_eq (regions i).type t then some i else rest

unfoldable pub get_enclave_region_index : Machine → ℕ → RegionType → Option ℕ
get_enclave_region_index m eid t =
    region_index_loop enclave_regions_max 0 (m.enclaves eid).regions t

-- A negative index is no argument here; the callers pass one that was found.
unfoldable pub get_enclave_region_size : Machine → ℕ → ℕ → ℕ
get_enclave_region_size m eid memid =
    if ltb memid enclave_regions_max
    then pmp_region_get_size m.pmp ((m.enclaves eid).regions memid).pmp_rid
    else 0

unfoldable pub get_enclave_region_base : Machine → ℕ → ℕ → ℕ
get_enclave_region_base m eid memid =
    if ltb memid enclave_regions_max
    then pmp_region_get_addr m.pmp ((m.enclaves eid).regions memid).pmp_rid
    else 0

-- Sums of addresses are `uintptr_t`, and wrap.
unfoldable pub is_create_args_valid : CreateArgs → Bool
is_create_args_valid a =
    let epm_start = a.epm_region.paddr in
    let epm_end = (a.epm_region.paddr + a.epm_region.size) % 2 ^ 64 in
    let utm_end = (a.utm_region.paddr + a.utm_region.size) % 2 ^ 64 in
    if leb a.epm_region.size 0
    then false
    else if leb epm_end epm_start
    then false
    else if leb utm_end a.utm_region.paddr
    then false
    else if ltb a.runtime_paddr epm_start || leb epm_end a.runtime_paddr
    then false
    else if ltb a.user_paddr epm_start || leb epm_end a.user_paddr
    then false
    else if ltb a.free_paddr epm_start || ltb epm_end a.free_paddr
    then false
    else if ltb a.user_paddr a.runtime_paddr
    then false
    else if ltb a.free_paddr a.user_paddr
    then false
    else true

abbrev pub params_of : CreateArgs → RuntimeParams
params_of a = record {
  dram_base = a.epm_region.paddr;
  dram_size = a.epm_region.size;
  runtime_base = a.runtime_paddr;
  user_base = a.user_paddr;
  free_base = a.free_paddr;
  untrusted_base = a.utm_region.paddr;
  untrusted_size = a.utm_region.size;
  free_requested = a.free_requested;
}

-- The generic platform's hook.
unfoldable pub platform_create_enclave : Enclave → ℕ
platform_create_enclave e = success
