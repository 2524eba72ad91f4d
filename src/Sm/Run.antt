-- ===== src/Sm/Run.antt =====
-- `run_enclave`, `exit_enclave`, `stop_enclave` and `resume_enclave` of sm/src/enclave.c.
pub mod Life
pub mod Cases
pub mod Guards
pub mod Results
use keystone_workspace.Base.{
  ℕ, ◌+◌, ◌-◌, ◌%◌, ◌^◌, Bool, true, false, not, ◌&&◌, ◌||◌, ltb, ◌==◌, if◌then◌else◌,
}
use keystone_workspace.Base.Outcome.{Outcome, ret, hang, ◌>>=◌}
use keystone_workspace.Sm.Codes.{
  success, not_fresh, not_running, not_resumable, interrupted, edge_call_host, unknown_error,
}
use keystone_workspace.Sm.State.{
  EnclaveState, fresh, stopped, running, max_encl_threads, Enclave, Hart, Machine, with_enclave,
}
use keystone_workspace.Sm.Switch.{context_switch_to_enclave, context_switch_to_host}
use keystone_workspace.Sm.Enclave.{enclave_exists}

abbrev pub is_fresh : EnclaveState → Bool
is_fresh fresh = true
is_fresh _ = false

abbrev pub is_running : EnclaveState → Bool
is_running running = true
is_running _ = false

abbrev pub is_stopped : EnclaveState → Bool
is_stopped stopped = true
is_stopped _ = false

-- The request codes of sdk/include/shared/sm_call.h.
abbrev pub stop_timer_interrupt : ℕ
stop_timer_interrupt = 0

abbrev pub stop_edge_call_host : ℕ
stop_edge_call_host = 1

-- The code, the shared state and the hart.
abbrev pub CallResult : Type 0
CallResult = ℕ × Machine × Hart

-- A thread more, and the enclave runs.
abbrev pub started : Enclave → Enclave
started e = record e { n_thread = (e.n_thread + 1) % 2 ^ 32; state = running }

-- A thread less; without threads the enclave is stopped.
abbrev pub left : Enclave → Enclave
left e =
    let n = (e.n_thread + 2 ^ 32 - 1) % 2 ^ 32 in
    record e { n_thread = n; state = if n == 0 then stopped else e.state }

unfoldable pub is_runable : Machine → ℕ → Bool
is_runable m eid = enclave_exists m eid && is_fresh (m.enclaves eid).state

unfoldable pub run_enclave : Machine → ℕ → Hart → ℕ → Outcome CallResult
run_enclave m hart h eid = if not (is_runable m eid) then ret (not_fresh, m, h) else do
  s ← context_switch_to_enclave (with_enclave m eid (started (m.enclaves eid))) hart h eid true
  ret (success, s.0, s.1)

unfoldable pub exit_enclave : Machine → ℕ → Hart → ℕ → Outcome CallResult
exit_enclave m hart h eid =
    if not (is_running (m.enclaves eid).state) then ret (not_running, m, h) else do
      s ← context_switch_to_host (with_enclave m eid (left (m.enclaves eid))) hart h eid false
      ret (success, s.0, s.1)

-- The last `switch` of `stop_enclave`.
unfoldable pub stop_code : ℕ → ℕ
stop_code request =
    if request == stop_timer_interrupt
    then interrupted
    else if request == stop_edge_call_host
    then edge_call_host
    else unknown_error

unfoldable pub stop_enclave : Machine → ℕ → Hart → ℕ → ℕ → Outcome CallResult
stop_enclave m hart h request eid =
    if not (is_running (m.enclaves eid).state) then ret (not_running, m, h) else do
      s ←
          context_switch_to_host (with_enclave m eid (left (m.enclaves eid))) hart h eid
            (request == stop_edge_call_host)
      ret (stop_code request, s.0, s.1)

unfoldable pub is_resumable : Machine → ℕ → Bool
is_resumable m eid =
    enclave_exists m eid
    && (is_running (m.enclaves eid).state || is_stopped (m.enclaves eid).state)
    && ltb (m.enclaves eid).n_thread max_encl_threads

unfoldable pub resume_enclave : Machine → ℕ → Hart → ℕ → Outcome CallResult
resume_enclave m hart h eid = if not (is_resumable m eid) then ret (not_resumable, m, h) else do
  s ← context_switch_to_enclave (with_enclave m eid (started (m.enclaves eid))) hart h eid false
  ret (success, s.0, s.1)
