-- ===== src/Sm/Sbi/Gate.antt =====
-- Which calls a hart may make: the host's from outside an enclave, the enclave's from inside.
use keystone_workspace.Base.{ℕ, ◌≤◌, ◌<◌, ◌≡◌, true, false, arith, List, none}
use keystone_workspace.Base.Outcome.{ret}
use keystone_workspace.Sm.Codes.{sbi_prohibited, deprecated}
use keystone_workspace.Sm.State.{Hart, Machine, OpenSbi}
use keystone_workspace.Sm.Measure.{Crypto}
use keystone_workspace.Sm.Switch.{cpu_is_enclave_context}
use keystone_workspace.Sm.Attest.{UserCopy, BootKeys}
use keystone_workspace.Sm.Sbi.{value, handler}

module _ (sbi : OpenSbi) (c : Crypto) (u : UserCopy) (keys : BootKeys) (stack : ℕ → List ℕ)
    (random : ℕ) (m : Machine) (hart : ℕ) (h : Hart) (funcid : ℕ) where
  -- The hart's state and the machine are as they were.
  abbrev pub Refused : ℕ → Type 0
  Refused code = handler sbi c u keys stack random m hart h funcid ≡ ret (value code none, m, h)

  -- A deprecated id is refused. In an enclave every call of the host's range is refused, and
  -- outside an enclave every call of the enclave's range; no refused call changes any state.
  pub handler_refuses :
      (funcid ≤ 1999 → Refused deprecated)
      × (1999 < funcid → funcid ≤ 2999 → (m.cpus hart).is_enclave ≡ true → Refused sbi_prohibited)
      × (2999 < funcid → funcid ≤ 3999 → (m.cpus hart).is_enclave ≡ false → Refused sbi_prohibited)
  unfolding handler cpu_is_enclave_context
  handler_refuses = (λ l. ground arith, λ l u e. ground arith, λ l u e. ground arith)
