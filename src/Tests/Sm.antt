-- ===== src/Tests/Sm.antt =====
-- Calls of the monitor on concrete machines (sm/src/enclave.c, sm/src/sm-sbi-opensbi.c).
use keystone_workspace.Base.{◌<◌, ◌≤◌, ◌≡◌, ◌↔◌, ◌⊎◌, refl, true, false, arith, if◌then◌else◌, []}
use keystone_workspace.Base.Outcome.{Returns}
use keystone_workspace.Sm.Codes.{
  success, not_destroyable, not_fresh, not_resumable, sbi_prohibited, deprecated,
}
use keystone_workspace.Sm.State.{fresh, running, stopped}
use keystone_workspace.Sm.Enclave.{is_create_args_valid, encl_alloc_eid}
use keystone_workspace.Sm.Enclave.Valid.{
  Words, Layout, is_create_args_valid_iff, Allocates, encl_alloc_eid_lem,
}
use keystone_workspace.Sm.Destroy.{is_destroyable, destroy_enclave}
use keystone_workspace.Sm.Destroy.Wipe.{Shaped, Destroyed, destroy_enclave_lem}
use keystone_workspace.Sm.Run.{run_enclave, resume_enclave, exit_enclave}
use keystone_workspace.Sm.Run.Results.{
  Becomes, MayRun, MayResume, Exited, Resumed, run_enclave_results, resume_enclave_results,
  exit_enclave_results, exit_enclave-resume_enclave,
}
use keystone_workspace.Sm.Switch.{swap_context}
use keystone_workspace.Sm.Switch.Restore.{SameContext, swap_context_restores}
use keystone_workspace.Sm.Create.{create_enclave}
use keystone_workspace.Sm.Create.Effect.{CreateSpec}
use keystone_workspace.Sm.Create.Cases.{create_enclave_lem}
use keystone_workspace.Sm.Sbi.Gate.{Refused, handler_refuses}
use keystone_workspace.Tests.Machine.{
  sbi, crypto, copies, keys, hart_regs, enclave_regs, machine, low, args, booted,
}

run_enclave_results_example :
    Returns
      (λ r.
        (MayRun (machine fresh 0) 1 hart_regs 0
          × Becomes
              (machine fresh 0)
              1
              hart_regs
              0
              running
              1
              (record { is_enclave = true; eid = 0 })
              r)
        ⊎ ((¬ MayRun (machine fresh 0) 1 hart_regs 0)
            × (r ≡ (not_fresh, machine fresh 0, hart_regs))))
      (run_enclave (machine fresh 0) 1 hart_regs 0)
run_enclave_results_example = run_enclave_results (machine fresh 0) 1 hart_regs 0 (low fresh 0)

resume_enclave_results_example :
    Returns
      (λ r.
        (MayResume (machine stopped 0) 1 hart_regs 0
          × Becomes
              (machine stopped 0)
              1
              hart_regs
              0
              running
              1
              (record { is_enclave = true; eid = 0 })
              r)
        ⊎ ((¬ MayResume (machine stopped 0) 1 hart_regs 0)
            × (r ≡ (not_resumable, machine stopped 0, hart_regs))))
      (resume_enclave (machine stopped 0) 1 hart_regs 0)
resume_enclave_results_example =
    resume_enclave_results (machine stopped 0) 1 hart_regs 0 (low stopped 0)

exit_enclave_results_example :
    Returns
      (Exited (machine running 1) 1 hart_regs 0)
      (exit_enclave (machine running 1) 1 hart_regs 0)
exit_enclave_results_example =
    exit_enclave_results (machine running 1) 1 hart_regs 0 (low running 1) (omega arith)

exit_enclave-resume_enclave_example :
    Returns
      (λ r.
        (r.0 ≡ success)
        × ((r.1.enclaves 0).state ≡ stopped)
        × Returns (Resumed 0) (resume_enclave r.1 2 hart_regs 0))
      (exit_enclave (machine running 1) 1 hart_regs 0)
exit_enclave-resume_enclave_example =
    exit_enclave-resume_enclave (machine running 1) 1 hart_regs 0 2 hart_regs (low running 1)
      (omega arith) refl refl

shaped : Shaped ((machine stopped 0).enclaves 0) 2 3
shaped = record { epm_is = refl; utm_is = refl; no_more = λ i l u. ground arith }

destroy_enclave_lem_example :
    if is_destroyable (machine stopped 0) 0
    then ((destroy_enclave sbi (machine stopped 0) 0).0 ≡ success)
      × Destroyed (machine stopped 0) 0 2 3 (destroy_enclave sbi (machine stopped 0) 0).1
    else destroy_enclave sbi (machine stopped 0) 0 ≡ (not_destroyable, machine stopped 0)
destroy_enclave_lem_example = destroy_enclave_lem sbi (machine stopped 0) 0 2 3 shaped

words : Words args
words = record {
  epm_addr = omega arith;
  epm_size = omega arith;
  utm_addr = omega arith;
  utm_size = omega arith;
}

is_create_args_valid_iff_example : (is_create_args_valid args ≡ true) ↔ Layout args
is_create_args_valid_iff_example = is_create_args_valid_iff args words

encl_alloc_eid_lem_example : Allocates (machine fresh 0) (encl_alloc_eid (machine fresh 0))
encl_alloc_eid_lem_example = encl_alloc_eid_lem (machine fresh 0)

handler_refuses_example :
    (3001 ≤ 1999
      → Refused sbi crypto copies keys (λ n. []) 7 (machine fresh 0) 1 hart_regs 3001 deprecated)
    × (1999 < 3001
        → 3001 ≤ 2999
        → ((machine fresh 0).cpus 1).is_enclave ≡ true
        → Refused sbi crypto copies keys
            (λ n. [])
            7
            (machine fresh 0)
            1
            hart_regs
            3001
            sbi_prohibited)
    × (2999 < 3001
        → 3001 ≤ 3999
        → ((machine fresh 0).cpus 1).is_enclave ≡ false
        → Refused sbi crypto copies keys
            (λ n. [])
            7
            (machine fresh 0)
            1
            hart_regs
            3001
            sbi_prohibited)
handler_refuses_example =
    handler_refuses sbi crypto copies keys (λ n. []) 7 (machine fresh 0) 1 hart_regs 3001

swap_context_restores_example :
    let t = ((machine fresh 0).enclaves 0).thread in
    let (t1, h1) = swap_context t hart_regs true in
    let (t2, h2) = swap_context t1 enclave_regs false in
    SameContext h2.gpr hart_regs.gpr h2.mepc hart_regs.mepc h2.csrs hart_regs.csrs
    × SameContext t2.prev_state enclave_regs.gpr t2.prev_mepc enclave_regs.mepc t2.prev_csrs
        enclave_regs.csrs
swap_context_restores_example =
    swap_context_restores ((machine fresh 0).enclaves 0).thread hart_regs enclave_regs true false

create_enclave_lem_example :
    Returns (CreateSpec crypto args booted) (create_enclave sbi crypto hart_regs args booted)
create_enclave_lem_example = create_enclave_lem sbi crypto hart_regs args booted
