-- ===== src/Sm/Switch/Restore.antt =====
-- Two switches of context, into an enclave and back (sm/src/thread.c).
use keystone_workspace.Base.{
  ℕ, zero, suc, ◌+◌, ◌≤◌, ◌<◌, ◌≡◌, ◌∙◌, refl, Bool, ◌&&◌, ltb, leb, if◌then◌else◌, arith, update,
}
use keystone_workspace.Sm.State.{Csrs, Thread, Hart}
use keystone_workspace.Sm.Thread.{
  swap_loop, swap_prev_smode_csrs, swap_prev_state, swap_prev_mepc, swap_prev_mstatus,
}
use keystone_workspace.Sm.Switch.{swap_context}

-- The loop exchanges the words from `i` on, and no other.
swap_loop_lem :
    (rounds i : ℕ) (prev regs : ℕ → ℕ) (j : ℕ)
    → let (prev', regs') = swap_loop rounds i prev regs in
      (prev' j ≡ (if leb i j && ltb j (i + rounds) then regs j else prev j))
      × (regs' j ≡ (if leb i j && ltb j (i + rounds) then prev j else regs j))
unfolding swap_loop
swap_loop_lem zero i prev regs j = (ground arith, ground arith)
swap_loop_lem (suc rounds) i prev regs j =
    let (p, r) = swap_loop_lem rounds (i + 1) (update prev i (regs i)) (update regs i (prev i)) j in
    (p ∙ ground arith, r ∙ ground arith)

-- The registers and control registers that both sides have of their own.
pub record SameContext (gpr gpr' : ℕ → ℕ) (mepc mepc' : ℕ) (c c' : Csrs) : Type 0 where
  pub gpr_is : (j : ℕ) → 1 ≤ j → j < 32 → gpr j ≡ gpr' j
  pub mepc_is : mepc ≡ mepc'
  pub sstatus_is : c.sstatus ≡ c'.sstatus
  pub sie_is : c.sie ≡ c'.sie
  pub stvec_is : c.stvec ≡ c'.stvec
  pub scounteren_is : c.scounteren ≡ c'.scounteren
  pub sscratch_is : c.sscratch ≡ c'.sscratch
  pub sepc_is : c.sepc ≡ c'.sepc
  pub scause_is : c.scause ≡ c'.scause
  pub sbadaddr_is : c.sbadaddr ≡ c'.sbadaddr
  pub sip_is : c.sip ≡ c'.sip
  pub satp_is : c.satp ≡ c'.satp

SameContext-trans :
    {g1 g2 g3 : ℕ → ℕ} {m1 m2 m3 : ℕ} {c1 c2 c3 : Csrs}
    → SameContext g1 g2 m1 m2 c1 c2
    → SameContext g2 g3 m2 m3 c2 c3
    → SameContext g1 g3 m1 m3 c1 c3
SameContext-trans s t = record {
  gpr_is = λ j l u. s.gpr_is j l u ∙ t.gpr_is j l u;
  mepc_is = s.mepc_is ∙ t.mepc_is;
  sstatus_is = s.sstatus_is ∙ t.sstatus_is;
  sie_is = s.sie_is ∙ t.sie_is;
  stvec_is = s.stvec_is ∙ t.stvec_is;
  scounteren_is = s.scounteren_is ∙ t.scounteren_is;
  sscratch_is = s.sscratch_is ∙ t.sscratch_is;
  sepc_is = s.sepc_is ∙ t.sepc_is;
  scause_is = s.scause_is ∙ t.scause_is;
  sbadaddr_is = s.sbadaddr_is ∙ t.sbadaddr_is;
  sip_is = s.sip_is ∙ t.sip_is;
  satp_is = s.satp_is ∙ t.satp_is;
}

module _ (t : Thread) (h : Hart) (r : Bool) where
  saved :
      let (t', h') = swap_context t h r in
      SameContext t'.prev_state h.gpr t'.prev_mepc h.mepc t'.prev_csrs h.csrs
      × SameContext h'.gpr t.prev_state h'.mepc t.prev_mepc h'.csrs t.prev_csrs
  unfolding swap_context swap_prev_state swap_prev_mepc swap_prev_mstatus swap_prev_smode_csrs
  saved = (
    record {
      gpr_is = λ j l u. let one = (swap_loop_lem 32 0 t.prev_state h.gpr j).0 in ground arith;
      mepc_is = refl;
      sstatus_is = refl;
      sie_is = refl;
      stvec_is = refl;
      scounteren_is = refl;
      sscratch_is = refl;
      sepc_is = refl;
      scause_is = refl;
      sbadaddr_is = refl;
      sip_is = refl;
      satp_is = refl;
    },
    record {
      gpr_is = λ j l u. let one = (swap_loop_lem 32 0 t.prev_state h.gpr j).1 in ground arith;
      mepc_is = refl;
      sstatus_is = refl;
      sie_is = refl;
      stvec_is = refl;
      scounteren_is = refl;
      sscratch_is = refl;
      sepc_is = refl;
      scause_is = refl;
      sbadaddr_is = refl;
      sip_is = refl;
      satp_is = refl;
    },
  )

-- A hart enters an enclave from `h`, and leaves it from `h'`: the hart has back the registers x1 to
-- x31, the program counter and the control registers that it had in `h`, and the thread keeps those
-- of `h'` for the next switch. The words sedeleg, sideleg and mstatus are not among them.
pub swap_context_restores :
    (t : Thread) (h h' : Hart) (r r' : Bool)
    → let (t1, h1) = swap_context t h r in
      let (t2, h2) = swap_context t1 h' r' in
      SameContext h2.gpr h.gpr h2.mepc h.mepc h2.csrs h.csrs
      × SameContext t2.prev_state h'.gpr t2.prev_mepc h'.mepc t2.prev_csrs h'.csrs
swap_context_restores t h h' r r' =
    let t1 = (swap_context t h r).0 in
    let (kept, back) = saved t1 h' r' in (SameContext-trans back (saved t h r).0, kept)
