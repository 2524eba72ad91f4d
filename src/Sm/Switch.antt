-- ===== src/Sm/Switch.antt =====
-- The context switches of sm/src/enclave.c, and sm/src/cpu.c. The hooks of the generic platform
-- (sm/src/platform/generic/platform.c) do nothing, and have no term here.
pub mod Restore
use keystone_workspace.Base.{
  ℕ, zero, suc, ◌+◌, ◌-◌, ◌*◌, ◌%◌, ◌^◌, Bool, true, false, not, if◌then◌else◌, ◌==◌, update,
}
use keystone_workspace.Base.Outcome.{Outcome, ret, hang, ◌>>=◌}
use keystone_workspace.Base.Words.{band, bor, bnot, shl}
use keystone_workspace.Pmp.State.{pmp_all_perm, pmp_no_perm}
use keystone_workspace.Sm.State.{
  EnclaveRegion, RegionType, region_none, type_eq, Csrs, Thread, RuntimeParams, Enclave, CpuState,
  Hart, Machine, with_enclave, enclave_regions_max,
}
use keystone_workspace.Sm.Thread.{
  switch_vector_enclave, switch_vector_host, swap_prev_mstatus, swap_prev_state, swap_prev_mepc,
}
use keystone_workspace.Sm.Ipi.{local_pmp_set, osm_pmp_set}

unfoldable pub cpu_is_enclave_context : Machine → ℕ → Bool
cpu_is_enclave_context m hart = (m.cpus hart).is_enclave

unfoldable pub cpu_get_enclave_id : Machine → ℕ → ℕ
cpu_get_enclave_id m hart = (m.cpus hart).eid

unfoldable pub cpu_enter_enclave_context : Machine → ℕ → ℕ → Machine
cpu_enter_enclave_context m hart eid = record m {
  cpus = update m.cpus hart (record { is_enclave = true; eid = eid });
}

unfoldable pub cpu_exit_enclave_context : Machine → ℕ → Machine
cpu_exit_enclave_context m hart = record m {
  cpus = update m.cpus hart (record (m.cpus hart) { is_enclave = false });
}

-- The three swaps that both directions make.
unfoldable pub swap_context : Thread → Hart → Bool → Thread × Hart
unfolding swap_prev_state swap_prev_mepc swap_prev_mstatus
swap_context thread h return_on_resume =
    let (t1, h1) = swap_prev_state thread h return_on_resume in
    let (t2, h2) = swap_prev_mepc t1 h1 h1.mepc in swap_prev_mstatus t2 h2 h2.mstatus

-- The registers that a first run passes to the enclave: a1 to a7 are the words 11 to 17.
abbrev entry_gpr : RuntimeParams → (ℕ → ℕ) → ℕ → ℕ
entry_gpr p regs =
    let r1 = update regs 11 p.dram_base in
    let r2 = update r1 12 p.dram_size in
    let r3 = update r2 13 p.runtime_base in
    let r4 = update r3 14 p.user_base in
    let r5 = update r4 15 p.free_base in
    let r6 = update r5 16 p.untrusted_base in update r6 17 p.untrusted_size

-- Under `load_parameters`; MSTATUS_MPP_SHIFT is 11, and mepc is 4 bytes short of the entry.
unfoldable pub load_params : RuntimeParams → Hart → Hart
load_params p h = record h {
  mepc = (p.dram_base + 2 ^ 64 - 4) % 2 ^ 64;
  mstatus = shl 64 1 11;
  gpr = entry_gpr p h.gpr;
  csrs = record (h.csrs) { satp = 0 };
}

-- The loop over the regions of an enclave, `rounds` rounds from index `memid`.
unfoldable pub set_regions : ℕ → ℕ → Enclave → ℕ → ℕ → Machine → Outcome Machine
set_regions zero memid e perm hart m = ret m
set_regions (suc rounds) memid e perm hart m =
    let r = e.regions memid in
    (if type_eq r.type region_none then ret (0, m) else local_pmp_set m hart r.pmp_rid perm)
    >>= λ cm. set_regions rounds (memid + 1) e perm hart cm.1

unfoldable pub context_switch_to_enclave : Machine → ℕ → Hart → ℕ → Bool → Outcome (Machine × Hart)
context_switch_to_enclave m hart h eid load_parameters =
    let e = m.enclaves eid in
    let (thread, h1) = swap_context e.thread h true in
    let m1 = with_enclave m eid (record e { thread = thread }) in
    let h2 = record h1 { mideleg = 0 } in
    let h3 = if load_parameters then load_params e.params h2 else h2 in
    do
      m2 ← osm_pmp_set m1 hart pmp_no_perm
      m3 ← set_regions enclave_regions_max 0 e pmp_all_perm hart m2.1
      ret (cpu_enter_enclave_context m3 hart eid, switch_vector_enclave h3)

-- MIP_SSIP, MIP_STIP and MIP_SEIP
abbrev pub supervisor_interrupts : ℕ
supervisor_interrupts = 0x2 + 0x20 + 0x200

-- A machine-level interrupt that is pending becomes the supervisor's.
abbrev pub hand_down : ℕ → ℕ → ℕ → ℕ → ℕ
hand_down pending machine supervisor mip =
    if band 64 pending machine == 0 then mip else bor 64 (band 64 mip (bnot 64 machine)) supervisor

unfoldable pub deliver_pending : Hart → Hart
deliver_pending h = record h {
  mip = hand_down h.mip 0x800 0x200 (hand_down h.mip 0x8 0x2 (hand_down h.mip 0x80 0x20 h.mip));
}

unfoldable pub context_switch_to_host : Machine → ℕ → Hart → ℕ → Bool → Outcome (Machine × Hart)
context_switch_to_host m hart h eid return_on_resume =
    let e = m.enclaves eid in
    let (thread, h2) =
      swap_context e.thread (record h { mideleg = supervisor_interrupts }) return_on_resume in
    do
      m1 ← set_regions enclave_regions_max 0 e pmp_no_perm hart m
      m2 ← osm_pmp_set m1 hart pmp_all_perm
      let m3 = with_enclave m2.1 eid (record ((m2.1).enclaves eid) { thread = thread })
      ret (cpu_exit_enclave_context m3 hart, deliver_pending (switch_vector_host h2))
