-- ===== src/Sm/Calls.antt =====
-- Which hart is in which enclave, over sequences of the calls of sm/src/enclave.c.
pub mod Switches
pub mod Registers
pub mod Steps
use keystone_workspace.Base.{ℕ, ◌≡◌, ◌≢◌, true}
use keystone_workspace.Sm.State.{running, Enclave, CpuState}

-- No enclave has two harts in its context, the enclave of a hart is running, a running enclave has
-- one thread, and every other enclave has none.
pub record Exclusive (enclaves : ℕ → Enclave) (cpus : ℕ → CpuState) : Type 0 where
  pub alone :
      (k l : ℕ)
      → (cpus k).is_enclave ≡ true
      → (cpus l).is_enclave ≡ true
      → (cpus k).eid ≡ (cpus l).eid
      → k ≡ l
  pub runs : (k : ℕ) → (cpus k).is_enclave ≡ true → (enclaves (cpus k).eid).state ≡ running
  pub counted : (j : ℕ) → (enclaves j).state ≡ running → (enclaves j).n_thread ≡ 1
  pub idle : (j : ℕ) → (enclaves j).state ≢ running → (enclaves j).n_thread ≡ 0
