-- ===== src/Tests/Machine.antt =====
-- Concrete machines and parameters, for the theorems on the calls of sm/src/enclave.c.
use keystone_workspace.Base.{
  ℕ, ◌+◌, ◌*◌, refl, true, false, ◌&&◌, ltb, leb, ◌==◌, arith, update, if◌then◌else◌, List, [],
  ◌++◌,
}
use keystone_workspace.Pmp.State.{Pmp, initial, tor, napot, region_init}
use keystone_workspace.Sm.State.{
  EnclaveState, invalid, region_none, region_epm, region_utm, EnclaveRegion, Csrs, Enclave,
  CreateArgs, Hart, host_vector, Machine, OpenSbi,
}
use keystone_workspace.Sm.Measure.{Crypto}
use keystone_workspace.Sm.Attest.{UserCopy, BootKeys}
use keystone_workspace.Sm.Destroy.{zero_params}
use keystone_workspace.Sm.Run.Life.{RegsLow}

abbrev pub sbi : OpenSbi
sbi = record {
  interruptible = λ hart. true;
  tlb_request = λ mask f regs hart. if mask hart then f (regs hart) else regs hart;
  memset = λ mem base value size a. if leb base a && ltb a (base + size) then value else mem a;
  tlb_request_lem = λ mask f regs hart. refl;
  memset_lem = λ mem base value size a. refl;
}

abbrev pub crypto : Crypto
crypto = record {
  Ctx = List ℕ;
  hash_init = [];
  hash_extend = λ ctx bytes. ctx ++ bytes;
  hash_finalize = λ ctx. ctx;
  sign = λ bytes. bytes;
  kdf = λ bytes. (0, bytes);
}

abbrev pub copies : UserCopy
copies = record { copy_to_sm = λ mem a n. (0, []); copy_from_sm = λ mem a bytes. (0, mem) }

abbrev pub keys : BootKeys
keys = record { sm_hash = []; sm_public_key = []; sm_signature = []; dev_public_key = [] }

abbrev pub no_csrs : Csrs
no_csrs = record {
  sstatus = 0;
  sedeleg = 0;
  sideleg = 0;
  sie = 0;
  stvec = 0;
  scounteren = 0;
  sscratch = 0;
  sepc = 0;
  scause = 0;
  sbadaddr = 0;
  sip = 0;
  satp = 0;
}

abbrev pub hart_regs : Hart
hart_regs = record {
  gpr = λ n. n;
  mepc = 0x8040_0000;
  mstatus = 0x800;
  csrs = no_csrs;
  mideleg = 0x222;
  mip = 0;
  mtvec = host_vector;
}

-- The registers of the same hart when the enclave leaves.
abbrev pub enclave_regs : Hart
enclave_regs = record hart_regs { gpr = λ n. 2 * n; mepc = 0x9000_0100 }

-- A private region of three pages with two registers, and a shared one.
abbrev pub two_regions : Pmp
two_regions =
    region_init
      (region_init (record initial { region_def_bitmap = 0xc; reg_bitmap = 0x8c }) 2 0x9000_0000
        0x3000 tor false 3)
      3 0xa000_0000 0x1000 napot false 7

abbrev pub table : ℕ → EnclaveRegion
table i =
    if i == 0
    then record { pmp_rid = 2; type = region_epm }
    else if i == 1
    then record { pmp_rid = 3; type = region_utm }
    else record { pmp_rid = 0; type = region_none }

abbrev pub enclave_in : EnclaveState → ℕ → Enclave
enclave_in s n = record {
  eid = 0;
  encl_satp = 0;
  state = s;
  regions = table;
  hash = [];
  params = zero_params;
  n_thread = n;
  thread = record {
    prev_mpp = 0;
    prev_mepc = 0;
    prev_mstatus = 0;
    prev_csrs = no_csrs;
    prev_state = λ i. 0;
  };
}

-- Enclave 0 in a state, every other invalid.
abbrev pub machine : EnclaveState → ℕ → Machine
machine s n = record {
  pmp = two_regions;
  enclaves = update (λ j. enclave_in invalid 0) 0 (enclave_in s n);
  cpus = λ hart. record { is_enclave = false; eid = 0 };
  pmp_regs = λ hart. record { addr = λ i. 0; cfg = λ g. 0 };
  mem = λ a. 1;
  sm_region_id = 0;
  os_region_id = 1;
}

pub low : (s : EnclaveState) (n : ℕ) → RegsLow (machine s n).pmp
unfolding region_init
low s n = λ i. ground arith

abbrev pub args : CreateArgs
args = record {
  epm_region = record { paddr = 0x9000_0000; size = 0x3000 };
  utm_region = record { paddr = 0xa000_0000; size = 0x1000 };
  runtime_paddr = 0x9000_0000;
  user_paddr = 0x9000_1000;
  free_paddr = 0x9000_2000;
  free_requested = 0x1000;
}

-- A machine without enclaves, after the boot.
abbrev pub booted : Machine
booted = record (machine invalid 0) { pmp = initial }
