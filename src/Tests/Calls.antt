-- ===== src/Tests/Calls.antt =====
-- Sequences of calls of the monitor on concrete machines (sm/src/enclave.c).
use keystone_workspace.Base.{arith}
use keystone_workspace.Base.Outcome.{Returns}
use keystone_workspace.Pmp.Isolation.{here, Reach-Isolated}
use keystone_workspace.Sm.State.{fresh}
use keystone_workspace.Sm.Create.{create_enclave}
use keystone_workspace.Sm.Create.Isolation.{Apartness, create_enclave-Secluded}
use keystone_workspace.Sm.Destroy.{destroy_enclave}
use keystone_workspace.Sm.Calls.Steps.{Sound, destroy, none_yet, one_more, Calls-Sound}
use keystone_workspace.Tests.Machine.{sbi, crypto, hart_regs, args, machine, booted, low}

create_enclave-Secluded_example :
    Returns
      (Apartness sbi crypto hart_regs args booted)
      (create_enclave sbi crypto hart_regs args booted)
create_enclave-Secluded_example =
    create_enclave-Secluded sbi crypto hart_regs args booted (Reach-Isolated here)

ready : Sound (machine fresh 0)
ready = (
  record {
    alone = λ k l i j s. absurd (ground arith);
    runs = λ k i. absurd (ground arith);
    counted = λ j r. absurd (ground arith);
    idle = λ j r. ground arith;
  },
  low fresh 0,
)

Calls-Sound_example : Sound (destroy_enclave sbi (machine fresh 0) 0).1
Calls-Sound_example = Calls-Sound {sbi = sbi} {c = crypto} (one_more none_yet (destroy 0)) ready
