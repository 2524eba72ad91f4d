-- ===== src/Sm/Calls/Steps.antt =====
-- Sequences of calls (sm/src/enclave.c), each made as sm/src/sm-sbi-opensbi.c allows it: run and
-- resume by a hart outside an enclave, exit and stop by a hart inside one, for that enclave.
use native.Mathlib.Decide.{ℕ_discrete}
use keystone_workspace.Base.{
  ℕ, ◌≡◌, ◌≢◌, ◌∙◌, refl, sym, ap, subst, fun_ext, true, false, arith, update, update_self,
  update_ne, Bool-cases, inl, inr,
}
use keystone_workspace.Base.Outcome.{ret, ret-injective, Returns-result}
use keystone_workspace.Pmp.Isolation.{Reach}
use keystone_workspace.Sm.State.{running, destroying, Enclave, CreateArgs, Hart, Machine, OpenSbi}
use keystone_workspace.Sm.Measure.{Crypto}
use keystone_workspace.Sm.Enclave.{with_state}
use keystone_workspace.Sm.Create.{CreateResult, create_enclave}
use keystone_workspace.Sm.Create.Cases.{create_enclave_lem}
use keystone_workspace.Sm.Create.Isolation.{create_enclave-Reach}
use keystone_workspace.Sm.Destroy.{is_destroyable, destroy_begin, destroy_rest, destroy_enclave}
use keystone_workspace.Sm.Destroy.Wipe.{is_destroyable_lem}
use keystone_workspace.Sm.Run.{
  CallResult, started, left, is_runable, is_resumable, is_running, run_enclave, resume_enclave,
  exit_enclave, stop_enclave,
}
use keystone_workspace.Sm.Run.Life.{RegsLow}
use keystone_workspace.Sm.Run.Cases.{
  Switched, run_enclave_lem, resume_enclave_lem, exit_enclave_lem, stop_enclave_lem,
}
use keystone_workspace.Sm.Run.Guards.{runable_iff}
use keystone_workspace.Sm.Calls.{Exclusive}
use keystone_workspace.Sm.Calls.Switches.{changed-Exclusive, enters-Exclusive, leaves-Exclusive}
use keystone_workspace.Sm.Calls.Registers.{RegsLow-Reach, destroy_rest-lem, update_twice}

pub data Call (sbi : OpenSbi) (c : Crypto) (m : Machine) : Machine → Type 0 where
  create :
      (h : Hart) (a : CreateArgs) (r : CreateResult)
      → create_enclave sbi c h a m ≡ ret r
      → Call sbi c m r.machine
  destroy : (eid : ℕ) → Call sbi c m (destroy_enclave sbi m eid).1
  run :
      (hart : ℕ) (h : Hart) (eid : ℕ) (r : CallResult)
      → (m.cpus hart).is_enclave ≡ false
      → run_enclave m hart h eid ≡ ret r
      → Call sbi c m r.1
  resume :
      (hart : ℕ) (h : Hart) (eid : ℕ) (r : CallResult)
      → (m.cpus hart).is_enclave ≡ false
      → resume_enclave m hart h eid ≡ ret r
      → Call sbi c m r.1
  exit :
      (hart : ℕ) (h : Hart) (r : CallResult)
      → (m.cpus hart).is_enclave ≡ true
      → exit_enclave m hart h (m.cpus hart).eid ≡ ret r
      → Call sbi c m r.1
  stop :
      (hart : ℕ) (h : Hart) (request : ℕ) (r : CallResult)
      → (m.cpus hart).is_enclave ≡ true
      → stop_enclave m hart h request (m.cpus hart).eid ≡ ret r
      → Call sbi c m r.1

pub data Calls (sbi : OpenSbi) (c : Crypto) (m : Machine) : Machine → Type 0 where
  none_yet : Calls sbi c m m
  one_more : {m' m'' : Machine} → Calls sbi c m m' → Call sbi c m' m'' → Calls sbi c m m''

-- Harts and enclaves agree, and every region names a PMP register that exists.
abbrev pub Sound : Machine → Type 0
Sound m = Exclusive m.enclaves m.cpus × RegsLow m.pmp

created-update :
    (en en' : ℕ → Enclave) (eid : ℕ)
    → ((j : ℕ) → eid ≢ j → en' j ≡ en j)
    → en' ≡ update en eid (en' eid)
created-update en en' eid h = fun_ext λ j. elim (ℕ_discrete eid j) [
  | yes q ↦ sym (ap en' q) ∙ sym (update_self en eid (en' eid)) ∙ ap (update en eid (en' eid)) q
  | no q ↦ h j q ∙ sym (update_ne en eid j (en' eid) q)
]

module _ (m : Machine) (s : Sound m) where
  entered-Sound :
      (hart eid : ℕ) (m' : Machine)
      → (m.enclaves eid).state ≢ running
      → Switched m hart eid (started (m.enclaves eid)) (record { is_enclave = true; eid = eid }) m'
      → Sound m'
  entered-Sound hart eid m' was w =
      let none = s.0.idle eid was in
      rw (w.enclaves_are, w.cpus_are, w.pmp_is)
        (enters-Exclusive s.0 hart eid _ was refl (rw none refl), s.1)

  left-Sound :
      (hart : ℕ) (m' : Machine)
      → (m.cpus hart).is_enclave ≡ true
      → Switched m hart
          (m.cpus hart).eid
          (left (m.enclaves (m.cpus hart).eid))
          (record (m.cpus hart) { is_enclave = false })
          m'
      → Sound m'
  left-Sound hart m' inn w =
      let one = s.0.counted (m.cpus hart).eid (s.0.runs hart inn) in
      rw (w.enclaves_are, w.cpus_are, w.pmp_is)
        (leaves-Exclusive s.0 hart _ inn (rw one (λ q. cc)) (rw one refl), s.1)

  create-Sound :
      (sbi : OpenSbi) (c : Crypto) (h : Hart) (a : CreateArgs) (r : CreateResult)
      → create_enclave sbi c h a m ≡ ret r
      → Sound r.machine
  create-Sound sbi c h a r went =
      let (t, f, spec) = Returns-result (create_enclave_lem sbi c h a m) in
      let (t', f', reach) = Returns-result (create_enclave-Reach sbi c h a m) in
      let same : t ≡ r = ret-injective (sym f ∙ went) in
      let same' : t' ≡ r = ret-injective (sym f' ∙ went) in
      let low : RegsLow r.machine.pmp =
        RegsLow-Reach (subst (λ (x : CreateResult). Reach m.pmp x.machine.pmp) same' reach) s.1 in
      let made : Exclusive t.machine.enclaves t.machine.cpus = elim spec [
        | inl (_, _, w) ↦ rw (fun_ext w.enclaves_are, w.cpus_are) s.0
        | inr (_, _, (eid, _, w)) ↦
            let was : (m.enclaves eid).state ≢ running = let i = w.was_invalid in λ q. cc in
            let now : (t.machine.enclaves eid).state ≢ running = let i = w.state_is in λ q. cc in
            subst (Exclusive t.machine.enclaves) (sym w.cpus_are) (
              subst (λ (en : ℕ → Enclave). Exclusive en m.cpus)
                (sym (created-update m.enclaves t.machine.enclaves eid w.others_are))
                (changed-Exclusive s.0 eid (t.machine.enclaves eid) was now w.threads_are))
      ] in
      (subst (λ (x : CreateResult). Exclusive x.machine.enclaves x.machine.cpus) same made, low)

  destroy-Sound : (sbi : OpenSbi) (eid : ℕ) → Sound (destroy_enclave sbi m eid).1
  unfolding destroy_enclave destroy_begin
  destroy-Sound sbi eid = elim (Bool-cases (is_destroyable m eid)) [
    | inr n ↦ rw (n, destroy_enclave) s
    | inl y ↦
        let was = ((is_destroyable_lem m eid).0 y).2 in
        let m1 = with_state m eid destroying in
        let ((e, ens, now, none), cpus, low) = destroy_rest-lem sbi m1 eid s.1 in
        rw (y, destroy_enclave)
          (
            subst (Exclusive (destroy_rest sbi m1 eid).enclaves) (sym cpus) (
                subst (λ (en : ℕ → Enclave). Exclusive en m.cpus)
                  (sym (ens ∙ update_twice m.enclaves eid _ e))
                  (changed-Exclusive s.0 eid e was (λ q. cc) none)),
            low,
          )
  ]

  run-Sound :
      (hart : ℕ) (h : Hart) (eid : ℕ) (r : CallResult)
      → run_enclave m hart h eid ≡ ret r
      → Sound r.1
  run-Sound hart h eid r went =
      let (t, f, spec) = Returns-result (run_enclave_lem m hart h eid s.1) in
      let same : t ≡ r = ret-injective (sym f ∙ went) in
      let made : Sound t.1 = elim (Bool-cases (is_runable m eid)) [
        | inl y ↦
            let (_, w) = rw y at spec in
            let was : (m.enclaves eid).state ≢ running =
              let g = ((runable_iff m eid).0.0 y).1 in λ q. cc in
            entered-Sound hart eid t.1 was w
        | inr n ↦ let w = rw n at spec in subst (λ (x : CallResult). Sound x.1) (sym w) s
      ] in
      subst (λ (x : CallResult). Sound x.1) same made

  resume-Sound :
      (hart : ℕ) (h : Hart) (eid : ℕ) (r : CallResult)
      → resume_enclave m hart h eid ≡ ret r
      → Sound r.1
  resume-Sound hart h eid r went =
      let (t, f, spec) = Returns-result (resume_enclave_lem m hart h eid s.1) in
      let same : t ≡ r = ret-injective (sym f ∙ went) in
      let made : Sound t.1 = elim (Bool-cases (is_resumable m eid)) [
        | inl y ↦
            let (_, w) = rw y at spec in
            let was : (m.enclaves eid).state ≢ running =
              let free = ((runable_iff m eid).1.0 y).2 in
              λ q. let one = s.0.counted eid q in omega arith in
            entered-Sound hart eid t.1 was w
        | inr n ↦ let w = rw n at spec in subst (λ (x : CallResult). Sound x.1) (sym w) s
      ] in
      subst (λ (x : CallResult). Sound x.1) same made

  exit-Sound :
      (hart : ℕ) (h : Hart) (r : CallResult)
      → (m.cpus hart).is_enclave ≡ true
      → exit_enclave m hart h (m.cpus hart).eid ≡ ret r
      → Sound r.1
  exit-Sound hart h r inn went =
      let eid = (m.cpus hart).eid in
      let (t, f, spec) = Returns-result (exit_enclave_lem m hart h eid s.1) in
      let same : t ≡ r = ret-injective (sym f ∙ went) in
      let made : Sound t.1 = elim (Bool-cases (is_running (m.enclaves eid).state)) [
        | inl y ↦ let (_, w) = rw y at spec in left-Sound hart t.1 inn w
        | inr n ↦ let w = rw n at spec in subst (λ (x : CallResult). Sound x.1) (sym w) s
      ] in
      subst (λ (x : CallResult). Sound x.1) same made

  stop-Sound :
      (hart : ℕ) (h : Hart) (request : ℕ) (r : CallResult)
      → (m.cpus hart).is_enclave ≡ true
      → stop_enclave m hart h request (m.cpus hart).eid ≡ ret r
      → Sound r.1
  stop-Sound hart h request r inn went =
      let eid = (m.cpus hart).eid in
      let (t, f, spec) = Returns-result (stop_enclave_lem m hart h eid s.1 request) in
      let same : t ≡ r = ret-injective (sym f ∙ went) in
      let made : Sound t.1 = elim (Bool-cases (is_running (m.enclaves eid).state)) [
        | inl y ↦ let (_, w) = rw y at spec in left-Sound hart t.1 inn w
        | inr n ↦ let w = rw n at spec in subst (λ (x : CallResult). Sound x.1) (sym w) s
      ] in
      subst (λ (x : CallResult). Sound x.1) same made

Call-Sound : {sbi : OpenSbi} {c : Crypto} {m m' : Machine} → Call sbi c m m' → Sound m → Sound m'
Call-Sound {sbi} {c} {m} (create h a r went) s = create-Sound m s sbi c h a r went
Call-Sound {sbi} {c} {m} (destroy eid) s = destroy-Sound m s sbi eid
Call-Sound {sbi} {c} {m} (run hart h eid r out went) s = run-Sound m s hart h eid r went
Call-Sound {sbi} {c} {m} (resume hart h eid r out went) s = resume-Sound m s hart h eid r went
Call-Sound {sbi} {c} {m} (exit hart h r inn went) s = exit-Sound m s hart h r inn went
Call-Sound {sbi} {c} {m} (stop hart h request r inn went) s =
    stop-Sound m s hart h request r inn went

-- Over any sequence of calls it stays so that no enclave has two harts in its context, that the
-- enclave of a hart is running, that a running enclave has one thread and any other none, and
-- that every region names a PMP register that exists.
pub Calls-Sound :
    {sbi : OpenSbi} {c : Crypto} {m m' : Machine} → Calls sbi c m m' → Sound m → Sound m'
Calls-Sound none_yet s = s
Calls-Sound (one_more before call) s = Call-Sound call (Calls-Sound before s)
