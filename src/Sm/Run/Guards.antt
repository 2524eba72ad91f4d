-- ===== src/Sm/Run/Guards.antt =====
-- When an enclave may be run and resumed (sm/src/enclave.c).
use keystone_workspace.Base.{ℕ, ◌<◌, ◌≡◌, ◌⊎◌, ◌↔◌, inl, inr, true, arith, Bool-cases}
use keystone_workspace.Sm.State.{
  EnclaveState, fresh, running, stopped, encl_max, max_encl_threads, Machine,
}
use keystone_workspace.Sm.Enclave.{enclave_exists}
use keystone_workspace.Sm.Run.{is_runable, is_resumable, is_fresh, is_running, is_stopped}

of_is_fresh : (s : EnclaveState) → is_fresh s ≡ true → s ≡ fresh
of_is_fresh s e = ground arith

pub of_is_running : (s : EnclaveState) → is_running s ≡ true → s ≡ running
of_is_running s e = ground arith

of_is_stopped : (s : EnclaveState) → is_stopped s ≡ true → s ≡ stopped
of_is_stopped s e = ground arith

-- `run_enclave` accepts exactly the fresh enclaves, and `resume_enclave` exactly the running and
-- stopped ones with less than MAX_ENCL_THREADS threads, among the ids below ENCL_MAX.
pub runable_iff :
    (m : Machine) (eid : ℕ)
    → ((is_runable m eid ≡ true) ↔ ((eid < encl_max) × ((m.enclaves eid).state ≡ fresh)))
      × ((is_resumable m eid ≡ true) ↔ (
          (eid < encl_max)
          × (((m.enclaves eid).state ≡ running) ⊎ ((m.enclaves eid).state ≡ stopped))
          × ((m.enclaves eid).n_thread < max_encl_threads)))
unfolding is_runable is_resumable enclave_exists
runable_iff m eid = (
  (λ e. (ground arith, of_is_fresh _ (ground arith)), λ h. let f = h.1 in ground arith),
  (
    λ e. (
      ground arith,
      elim (Bool-cases (is_running (m.enclaves eid).state)) [
        | inl r ↦ inl (of_is_running _ r)
        | inr r ↦ inr (of_is_stopped _ (ground arith))
      ],
      ground arith,
    ),
    λ h. elim h.1 [ inl r ↦ ground arith | inr r ↦ ground arith ],
  ),
)
