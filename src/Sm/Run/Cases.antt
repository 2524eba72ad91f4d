-- ===== src/Sm/Run/Cases.antt =====
-- `run_enclave`, `resume_enclave`, `exit_enclave` and `stop_enclave`, on every branch.
use keystone_workspace.Base.{
  ℕ, ◌≡◌, ◌≢◌, ◌∙◌, refl, sym, ap, subst, fun_ext, ==_iff, Bool, true, false, ◌==◌, if◌then◌else◌,
  update, Bool-cases, inl, inr,
}
use keystone_workspace.Base.Outcome.{Returns, returns, Returns-bind}
use keystone_workspace.Pmp.State.{pmp_all_perm, pmp_no_perm}
use keystone_workspace.Sm.Codes.{success, not_fresh, not_running, not_resumable}
use keystone_workspace.Sm.State.{
  Enclave, Thread, Machine, Hart, CpuState, with_enclave, enclave_regions_max,
}
use keystone_workspace.Sm.Ipi.{osm_pmp_set}
use keystone_workspace.Sm.Switch.{
  swap_context, supervisor_interrupts, context_switch_to_enclave, context_switch_to_host,
  cpu_enter_enclave_context, cpu_exit_enclave_context,
}
use keystone_workspace.Sm.Run.{
  started, left, is_runable, is_resumable, is_running, run_enclave, resume_enclave, exit_enclave,
  stop_enclave, stop_code, stop_edge_call_host,
}
use keystone_workspace.Sm.Run.Life.{RegsLow, local_pmp_set-total, set_regions-total, OnlyRegs-trans}

-- The shared state after hart `hart` has switched context: enclave `eid` has another saved thread,
-- and is otherwise `e`; the hart's entry in the cpu table is `cpu`.
pub record Switched (m : Machine) (hart eid : ℕ) (e : Enclave) (cpu : CpuState) (m' : Machine)
    : Type 0 where
  pub thread : Thread
  pub pmp_is : m'.pmp ≡ m.pmp
  pub mem_is : m'.mem ≡ m.mem
  pub enclaves_are : m'.enclaves ≡ update m.enclaves eid (record e { thread = thread })
  pub cpus_are : m'.cpus ≡ update m.cpus hart cpu
  pub regs_are : (k : ℕ) → k ≢ hart → m'.pmp_regs k ≡ m.pmp_regs k

module _ (m : Machine) (hart : ℕ) (h : Hart) (eid : ℕ) (low : RegsLow m.pmp) where
  to_enclave-Switched :
      (load : Bool)
      → Returns
          (λ r. Switched m hart eid (m.enclaves eid) (record { is_enclave = true; eid = eid }) r.0)
          (context_switch_to_enclave m hart h eid load)
  unfolding context_switch_to_enclave osm_pmp_set cpu_enter_enclave_context
  to_enclave-Switched load =
      Returns-bind (local_pmp_set-total hart _ m.os_region_id pmp_no_perm low) λ r f.
        Returns-bind
          (set_regions-total hart enclave_regions_max 0 (m.enclaves eid) pmp_all_perm r.1
            (subst RegsLow (sym f.pmp_is) low))
          λ r' g.
            let all = OnlyRegs-trans hart f g in
            returns (record {
              thread = _;
              pmp_is = all.pmp_is;
              mem_is = all.mem_is;
              enclaves_are = all.enclaves_are;
              cpus_are = rw all.cpus_are;
              regs_are = all.others_are;
            })

  to_host-Switched :
      (resume : Bool)
      → Returns
          (λ r.
            Switched m hart eid (m.enclaves eid) (record (m.cpus hart) { is_enclave = false }) r.0)
          (context_switch_to_host m hart h eid resume)
  unfolding context_switch_to_host osm_pmp_set cpu_exit_enclave_context
  to_host-Switched resume =
      let t : Thread =
        (swap_context (m.enclaves eid).thread (record h { mideleg = supervisor_interrupts })
          resume).0 in
      Returns-bind (set_regions-total hart enclave_regions_max 0 (m.enclaves eid) pmp_no_perm m low)
        λ r f.
          Returns-bind
            (local_pmp_set-total hart r r.os_region_id pmp_all_perm
              (subst RegsLow (sym f.pmp_is) low))
            λ r' g.
              let all = OnlyRegs-trans hart f g in
              returns (record {
                thread = t;
                pmp_is = all.pmp_is;
                mem_is = all.mem_is;
                enclaves_are =
                    ap (λ (f : ℕ → Enclave). update f eid (record (f eid) { thread = t }))
                      all.enclaves_are;
                cpus_are = rw all.cpus_are;
                regs_are = all.others_are;
              })

rebase :
    (m : Machine) (hart eid : ℕ) (e : Enclave) (cpu : CpuState) {m' : Machine}
    → Switched (with_enclave m eid e) hart eid ((with_enclave m eid e).enclaves eid) cpu m'
    → Switched m hart eid e cpu m'
rebase m hart eid e cpu s = record {
  thread = s.thread;
  pmp_is = s.pmp_is;
  mem_is = s.mem_is;
  enclaves_are = s.enclaves_are ∙ fun_ext (twice s.thread);
  cpus_are = s.cpus_are;
  regs_are = s.regs_are;
}
  where
    twice :
        (t : Thread) (j : ℕ)
        → update
            (with_enclave m eid e).enclaves
            eid
            (record ((with_enclave m eid e).enclaves eid) { thread = t })
            j
          ≡ update m.enclaves eid (record e { thread = t }) j
    twice t j =
        let self : (eid == eid) ≡ true = (==_iff eid eid).1 refl in
        rw self (elim (Bool-cases (eid == j)) [ inl q ↦ rw q refl | inr q ↦ rw q refl ])

-- Enclave `eid` has become `e` up to its saved thread, hart `hart` has the entry `cpu`, and
-- nothing else of the shared state has changed but the hart's PMP registers.
module _ (m : Machine) (hart : ℕ) (h : Hart) (eid : ℕ) (low : RegsLow m.pmp) where
  abbrev pub Enters : ℕ × Machine × Hart → Type 0
  Enters r =
      (r.0 ≡ success)
      × Switched m hart eid (started (m.enclaves eid)) (record { is_enclave = true; eid = eid }) r.1

  abbrev pub Leaves : ℕ → ℕ × Machine × Hart → Type 0
  Leaves code r =
      (r.0 ≡ code)
      × Switched m hart eid (left (m.enclaves eid)) (record (m.cpus hart) { is_enclave = false })
          r.1

  abbrev pub Refuses : ℕ → ℕ × Machine × Hart → Type 0
  Refuses code r = r ≡ (code, m, h)

  -- `run_enclave` returns. On an enclave that exists and is fresh it adds a thread and makes it
  -- running, and this hart is in its context; on any other it changes nothing.
  pub run_enclave_lem :
      Returns
        (λ r. (if is_runable m eid then Enters r else Refuses not_fresh r))
        (run_enclave m hart h eid)
  unfolding run_enclave
  run_enclave_lem = elim (Bool-cases (is_runable m eid)) [
    | inr n ↦ rw n (returns refl)
    | inl y ↦ rw y (
        Returns-bind (to_enclave-Switched m1 hart h eid low true)
          λ r s. returns (refl, rebase m hart eid (started (m.enclaves eid)) _ s))
  ]
    where
      m1 : Machine
      m1 = with_enclave m eid (started (m.enclaves eid))

  -- `resume_enclave` returns. On an enclave that exists, is running or stopped and has less than
  -- MAX_ENCL_THREADS threads it adds a thread and makes it running, and this hart is in its
  -- context; on any other it changes nothing.
  pub resume_enclave_lem :
      Returns
        (λ r. (if is_resumable m eid then Enters r else Refuses not_resumable r))
        (resume_enclave m hart h eid)
  unfolding resume_enclave
  resume_enclave_lem = elim (Bool-cases (is_resumable m eid)) [
    | inr n ↦ rw n (returns refl)
    | inl y ↦ rw y (
        Returns-bind (to_enclave-Switched m1 hart h eid low false)
          λ r s. returns (refl, rebase m hart eid (started (m.enclaves eid)) _ s))
  ]
    where
      m1 : Machine
      m1 = with_enclave m eid (started (m.enclaves eid))

  -- `exit_enclave` returns. On a running enclave it takes a thread away, stops the enclave if none
  -- is left, and takes this hart out of the context; on any other it changes nothing.
  pub exit_enclave_lem :
      Returns
        (λ r.
          (if is_running (m.enclaves eid).state then Leaves success r else Refuses not_running r))
        (exit_enclave m hart h eid)
  unfolding exit_enclave
  exit_enclave_lem = elim (Bool-cases (is_running (m.enclaves eid).state)) [
    | inr n ↦ rw n (returns refl)
    | inl y ↦ rw y (
        Returns-bind (to_host-Switched m1 hart h eid low false)
          λ r s. returns (refl, rebase m hart eid (left (m.enclaves eid)) _ s))
  ]
    where
      m1 : Machine
      m1 = with_enclave m eid (left (m.enclaves eid))

  -- `stop_enclave` returns. On a running enclave it does the same as `exit_enclave`, with the code
  -- of the request; on any other it changes nothing.
  pub stop_enclave_lem :
      (request : ℕ)
      → Returns
          (λ r.
            (if is_running (m.enclaves eid).state
              then Leaves (stop_code request) r
              else Refuses not_running r))
          (stop_enclave m hart h request eid)
  unfolding stop_enclave
  stop_enclave_lem request = elim (Bool-cases (is_running (m.enclaves eid).state)) [
    | inr n ↦ rw n (returns refl)
    | inl y ↦ rw y (
        Returns-bind (to_host-Switched m1 hart h eid low (request == stop_edge_call_host))
          λ r s. returns (refl, rebase m hart eid (left (m.enclaves eid)) _ s))
  ]
    where
      m1 : Machine
      m1 = with_enclave m eid (left (m.enclaves eid))
