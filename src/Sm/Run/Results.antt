-- ===== src/Sm/Run/Results.antt =====
-- What `run_enclave`, `resume_enclave` and `exit_enclave` (sm/src/enclave.c) do to an enclave, by its
-- state and its number of threads.
use native.Mathlib.Decide.{ℕ_discrete}
use keystone_workspace.Base.{
  ℕ, ◌+◌, ◌-◌, ◌%◌, ◌^◌, ◌<◌, ◌≡◌, ◌≢◌, ◌⊎◌, ◌∙◌, inl, inr, refl, sym, ap, subst, arith, true,
  false, Bool-cases, ◌==◌, if◌then◌else◌, update_self,
}
use keystone_workspace.Base.Outcome.{Returns, Returns-map}
use keystone_workspace.Sm.Codes.{success, not_fresh, not_running, not_resumable}
use keystone_workspace.Sm.State.{
  fresh, running, stopped, encl_max, max_encl_threads, Enclave, EnclaveState, Machine, Hart,
  CpuState,
}
use keystone_workspace.Sm.Run.{
  is_runable, is_resumable, is_running, run_enclave, resume_enclave, exit_enclave,
}
use keystone_workspace.Sm.Run.Life.{RegsLow}
use keystone_workspace.Sm.Run.Cases.{
  Switched, Enters, Leaves, Refuses, run_enclave_lem, resume_enclave_lem, exit_enclave_lem,
}
use keystone_workspace.Sm.Run.Guards.{of_is_running, runable_iff}

module _ (m : Machine) (hart : ℕ) (h : Hart) (eid : ℕ) where
  abbrev enclave : Enclave
  enclave = m.enclaves eid

  -- Afterwards: the enclave has this state and so many threads, and is else as it was, but for its
  -- saved thread; the hart has the entry `cpu`; no other enclave, entry, region or byte has changed,
  -- and no PMP register of another hart.
  abbrev pub Becomes : EnclaveState → ℕ → CpuState → ℕ × Machine × Hart → Type 0
  Becomes state n cpu r =
      (r.0 ≡ success)
      × Switched m hart eid (record (m.enclaves eid) { state = state; n_thread = n }) cpu r.1

  abbrev pub MayRun : Type 0
  MayRun = (eid < encl_max) × (enclave.state ≡ fresh)

  abbrev pub MayResume : Type 0
  MayResume =
      (eid < encl_max)
      × ((enclave.state ≡ running) ⊎ (enclave.state ≡ stopped))
      × (enclave.n_thread < max_encl_threads)

  abbrev pub inside : CpuState
  inside = record { is_enclave = true; eid = eid }

  abbrev pub outside : CpuState
  outside = record (m.cpus hart) { is_enclave = false }

  -- run_enclave returns, if every region names a PMP register that exists. An enclave with an id
  -- below ENCL_MAX that is fresh becomes running, with one thread more (counted in 32 bits), this
  -- hart is in its context, and the code is 0; but for its saved thread it is else as it was, and
  -- so are the other enclaves and harts, the regions and the memory. In any other case the code is
  -- NOT_FRESH, and nothing changes.
  pub run_enclave_results :
      RegsLow m.pmp
      → Returns
          (λ r.
            (MayRun × Becomes running ((enclave.n_thread + 1) % 2 ^ 32) inside r)
            ⊎ ((¬ MayRun) × (r ≡ (not_fresh, m, h))))
          (run_enclave m hart h eid)
  run_enclave_results low =
      Returns-map
        (λ r spec. elim (Bool-cases (is_runable m eid)) [
          | inl y ↦ inl ((runable_iff m eid).0.0 y, rw y at spec)
          | inr n ↦ inr (λ may. let y = (runable_iff m eid).0.1 may in cc, rw n at spec)
        ])
        (run_enclave_lem m hart h eid low)

  -- resume_enclave returns, if every region names a PMP register that exists. An enclave with an id
  -- below ENCL_MAX that is running or stopped and has less than MAX_ENCL_THREADS threads becomes
  -- running, with one thread more, this hart is in its context, and the code is 0; but for its
  -- saved thread it is else as it was, and so are the other enclaves and harts, the regions and the
  -- memory. In any other case the code is NOT_RESUMABLE, and nothing changes.
  pub resume_enclave_results :
      RegsLow m.pmp
      → Returns
          (λ r.
            (MayResume × Becomes running (enclave.n_thread + 1) inside r)
            ⊎ ((¬ MayResume) × (r ≡ (not_resumable, m, h))))
          (resume_enclave m hart h eid)
  resume_enclave_results low =
      Returns-map
        (λ r spec. elim (Bool-cases (is_resumable m eid)) [
          | inl y ↦
              let may = (runable_iff m eid).1.0 y in
              let n : (enclave.n_thread + 1) % 2 ^ 32 ≡ enclave.n_thread + 1 =
                omega (arith, may.2) in
              let all : Enters m hart h eid low r = rw y at spec in inl (may, rw n at all)
          | inr n ↦ inr (λ may. let y = (runable_iff m eid).1.1 may in cc, rw n at spec)
        ])
        (resume_enclave_lem m hart h eid low)

  abbrev pub Exited : ℕ × Machine × Hart → Type 0
  Exited r =
      ((enclave.state ≡ running) × (enclave.n_thread ≡ 1) × Becomes stopped 0 outside r)
      ⊎ (((enclave.state ≡ running)
            × (enclave.n_thread ≢ 1)
            × Becomes running ((enclave.n_thread + 2 ^ 32 - 1) % 2 ^ 32) outside r)
          ⊎ ((enclave.state ≢ running) × (r ≡ (not_running, m, h))))

  Exited-cases :
      (low : RegsLow m.pmp) (r : ℕ × Machine × Hart)
      → enclave.n_thread < 2 ^ 32
      → (if is_running enclave.state
          then Leaves m hart h eid low success r
          else Refuses m hart h eid low not_running r)
      → Exited r
  Exited-cases low r word spec = elim (Bool-cases (is_running enclave.state)) [
    | inr n ↦
        let all : Refuses m hart h eid low not_running r = rw n at spec in
        inr (inr (λ s. let y : is_running enclave.state ≡ true = rw s refl in cc, all))
    | inl y ↦
        let runs = of_is_running enclave.state y in
        let all : Leaves m hart h eid low success r = rw y at spec in
        elim (ℕ_discrete enclave.n_thread 1) [
          | yes one ↦
              let none : (enclave.n_thread + 2 ^ 32 - 1) % 2 ^ 32 ≡ 0 = omega (arith, one) in
              inl (runs, one, rw none at all)
          | no more ↦
              let some : ((enclave.n_thread + 2 ^ 32 - 1) % 2 ^ 32 == 0) ≡ false =
                ground (arith, more, word) in
              inr (inl (runs, more, rw (some, runs) at all))
        ]
  ]

  -- exit_enclave returns, if every region names a PMP register that exists and the number of
  -- threads is a 32-bit word. A running enclave with one thread becomes stopped, without threads;
  -- one with another number stays running, with one thread less (counted in 32 bits); this hart is
  -- out of the context, and the code is 0. But for its saved thread the enclave is else as it was,
  -- and so are the other enclaves and harts, the regions and the memory. If it is not running, the
  -- code is NOT_RUNNING, and nothing changes.
  pub exit_enclave_results :
      RegsLow m.pmp → enclave.n_thread < 2 ^ 32 → Returns Exited (exit_enclave m hart h eid)
  exit_enclave_results low word =
      Returns-map (λ r. Exited-cases low r word) (exit_enclave_lem m hart h eid low)

  exits :
      (r : ℕ × Machine × Hart)
      → enclave.state ≡ running
      → enclave.n_thread ≡ 1
      → Exited r
      → Becomes stopped 0 outside r
  exits r runs one (inl spec) = spec.2
  exits r runs one (inr (inl spec)) = absurd (spec.1 one)
  exits r runs one (inr (inr spec)) = absurd (spec.0 runs)

abbrev pub Resumed : ℕ → ℕ × Machine × Hart → Type 0
Resumed eid u = (u.0 ≡ success) × ((u.1.enclaves eid).state ≡ running)

module _ (m : Machine) (k : ℕ) (h : Hart) (eid : ℕ) where
  resumes_stopped :
      RegsLow m.pmp → MayResume m k h eid → Returns (Resumed eid) (resume_enclave m k h eid)
  resumes_stopped low may =
      Returns-map
        (λ u spec. elim spec [
          | inl (_, (ok, s)) ↦ (
            ok,
            ap (λ f. (f eid).state) s.enclaves_are
                ∙ ap (λ e. e.state) (update_self m.enclaves eid _),
          )
          | inr (never, _) ↦ absurd (never may)
        ])
        (resume_enclave_results m k h eid low)

-- An enclave that has exited is stopped and can run again: after exit_enclave on a running enclave
-- with one thread, any hart can resume it, and it is running. Its id is below ENCL_MAX, and every
-- region names a PMP register that exists.
pub exit_enclave-resume_enclave :
    (m : Machine) (hart : ℕ) (h : Hart) (eid k : ℕ) (h' : Hart)
    → RegsLow m.pmp
    → eid < encl_max
    → (m.enclaves eid).state ≡ running
    → (m.enclaves eid).n_thread ≡ 1
    → Returns
        (λ r.
          (r.0 ≡ success)
          × ((r.1.enclaves eid).state ≡ stopped)
          × Returns (Resumed eid) (resume_enclave r.1 k h' eid))
        (exit_enclave m hart h eid)
exit_enclave-resume_enclave m hart h eid k h' low l runs one =
    Returns-map
      (λ r spec.
        let (ok, s) = exits m hart h eid r runs one spec in
        let new = ap (λ f. f eid) s.enclaves_are ∙ update_self m.enclaves eid _ in
        let state : (r.1.enclaves eid).state ≡ stopped = ap (λ e. e.state) new in
        let threads : (r.1.enclaves eid).n_thread ≡ 0 = ap (λ e. e.n_thread) new in
        (
          ok,
          state,
          resumes_stopped r.1 k h' eid (subst RegsLow (sym s.pmp_is) low)
              (l, inr state, omega (arith, threads)),
        ))
      (exit_enclave_results m hart h eid low (omega (arith, one)))
