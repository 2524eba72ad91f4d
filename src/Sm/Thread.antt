-- ===== src/Sm/Thread.antt =====
-- sm/src/thread.c: the swap of the saved context with the running one.
use keystone_workspace.Base.{ℕ, zero, suc, ◌+◌, ◌-◌, ◌^◌, Bool, if◌then◌else◌, update}
use keystone_workspace.Base.Words.{band, bor, bnot}
use keystone_workspace.Sm.State.{Thread, Hart, host_vector, enclave_vector}

unfoldable pub switch_vector_enclave : Hart → Hart
switch_vector_enclave h = record h { mtvec = enclave_vector }

unfoldable pub switch_vector_host : Hart → Hart
switch_vector_host h = record h { mtvec = host_vector }

-- MSTATUS_SIE, SPIE, SPP, MPP, FS, SUM and MXR, as the RISC-V privileged architecture defines them
abbrev pub mstatus_mask : ℕ
mstatus_mask = 0x2 + 0x20 + 0x100 + 0x1800 + 0x6000 + 0x4_0000 + 0x8_0000

unfoldable pub swap_prev_mstatus : Thread → Hart → ℕ → Thread × Hart
swap_prev_mstatus thread h current_mstatus =
    let others = band 64 current_mstatus (bnot 64 mstatus_mask) in
    (
      record thread { prev_mstatus = bor 64 others (band 64 current_mstatus mstatus_mask) },
      record h { mstatus = bor 64 others thread.prev_mstatus },
    )

-- The loop over the words of the context, `rounds` rounds from index `i`.
unfoldable pub swap_loop : ℕ → ℕ → (ℕ → ℕ) → (ℕ → ℕ) → (ℕ → ℕ) × (ℕ → ℕ)
swap_loop zero i prev regs = (prev, regs)
swap_loop (suc rounds) i prev regs =
    swap_loop rounds (i + 1) (update prev i (regs i)) (update regs i (prev i))

-- LOCAL_SWAP_CSR for each register that it is called with; `sedeleg` and `sideleg` stay.
unfoldable pub swap_prev_smode_csrs : Thread → Hart → Thread × Hart
swap_prev_smode_csrs thread h =
    let p = thread.prev_csrs in
    let c = h.csrs in
    (
      record thread { prev_csrs = record c { sedeleg = p.sedeleg; sideleg = p.sideleg } },
      record h { csrs = record p { sedeleg = c.sedeleg; sideleg = c.sideleg } },
    )

unfoldable pub swap_prev_state : Thread → Hart → Bool → Thread × Hart
swap_prev_state thread h return_on_resume =
    let (prev, regs) = swap_loop 32 0 thread.prev_state h.gpr in
    let slot : ℕ = if return_on_resume then 0 else 1 in
    swap_prev_smode_csrs (record thread { prev_state = update prev 0 slot })
      (record h { gpr = regs })

unfoldable pub swap_prev_mepc : Thread → Hart → ℕ → Thread × Hart
swap_prev_mepc thread h current_mepc =
    (record thread { prev_mepc = current_mepc }, record h { mepc = thread.prev_mepc })

unfoldable pub clean_smode_csrs : Thread → Hart → Thread
clean_smode_csrs thread h = record thread {
  prev_csrs = record {
    sstatus = 0;
    sedeleg = 0;
    sideleg = 0;
    sie = 0;
    stvec = 0;
    scounteren = h.csrs.scounteren;
    sscratch = 0;
    sepc = 0;
    scause = 0;
    sbadaddr = 0;
    sip = 0;
    satp = 0;
  };
}

-- The loop of `clean_state`, from index `i`.
unfoldable pub clean_loop : ℕ → ℕ → (ℕ → ℕ) → ℕ → ℕ
clean_loop zero i prev = prev
clean_loop (suc rounds) i prev = clean_loop rounds (i + 1) (update prev i 0)

-- `prev_mpp` becomes -1, as the 32-bit pattern.
unfoldable pub clean_state : Thread → Hart → Thread
clean_state thread h =
    clean_smode_csrs
      (record thread { prev_state = clean_loop 31 1 thread.prev_state; prev_mpp = 2 ^ 32 - 1 }) h
