-- ===== src/Sm/State.antt =====
-- The data of the security monitor (sm/src/enclave.h, sm/src/thread.h, sm/src/cpu.h,
-- sdk/include/shared/sm_call.h), and what it takes from OpenSBI and the cryptographic library.
-- The constants are those of sm/src/platform/generic/platform.h.
use keystone_workspace.Base.{
  ℕ, ◌+◌, ◌≡◌, Bool, true, false, ◌&&◌, ltb, leb, if◌then◌else◌, update, List,
}
use keystone_workspace.Pmp.State.{Pmp}
use keystone_workspace.Pmp.Regs.{PmpRegs}

abbrev pub encl_max : ℕ
encl_max = 16

abbrev pub enclave_regions_max : ℕ
enclave_regions_max = 8

abbrev pub max_encl_threads : ℕ
max_encl_threads = 1

abbrev pub attest_data_maxlen : ℕ
attest_data_maxlen = 1024

pub data EnclaveState : Type 0 where
  invalid destroying allocated fresh stopped running : EnclaveState

-- The number of a state in the source, plus one: INVALID is -1.
abbrev pub state_num : EnclaveState → ℕ
state_num invalid = 0
state_num destroying = 1
state_num allocated = 2
state_num fresh = 3
state_num stopped = 4
state_num running = 5

pub data RegionType : Type 0 where
  region_none region_epm region_utm region_other : RegionType

abbrev pub type_eq : RegionType → RegionType → Bool
type_eq region_none region_none = true
type_eq region_epm region_epm = true
type_eq region_utm region_utm = true
type_eq region_other region_other = true
type_eq _ _ = false

pub record EnclaveRegion : Type 0 where
  pub pmp_rid : ℕ
  pub type : RegionType

-- struct csrs
pub record Csrs : Type 0 where
  pub sstatus : ℕ
  pub sedeleg : ℕ
  pub sideleg : ℕ
  pub sie : ℕ
  pub stvec : ℕ
  pub scounteren : ℕ
  pub sscratch : ℕ
  pub sepc : ℕ
  pub scause : ℕ
  pub sbadaddr : ℕ
  pub sip : ℕ
  pub satp : ℕ

-- struct thread_state; `prev_state` is the array of its 32 words.
pub record Thread : Type 0 where
  pub prev_mpp : ℕ
  pub prev_mepc : ℕ
  pub prev_mstatus : ℕ
  pub prev_csrs : Csrs
  pub prev_state : ℕ → ℕ

pub record RuntimeParams : Type 0 where
  pub dram_base : ℕ
  pub dram_size : ℕ
  pub runtime_base : ℕ
  pub user_base : ℕ
  pub free_base : ℕ
  pub untrusted_base : ℕ
  pub untrusted_size : ℕ
  pub free_requested : ℕ

-- struct enclave, with the one thread of MAX_ENCL_THREADS
pub record Enclave : Type 0 where
  pub eid : ℕ
  pub encl_satp : ℕ
  pub state : EnclaveState
  pub regions : ℕ → EnclaveRegion
  pub hash : List ℕ
  pub params : RuntimeParams
  pub n_thread : ℕ
  pub thread : Thread

pub record Pregion : Type 0 where
  pub paddr : ℕ
  pub size : ℕ

-- struct keystone_sbi_create_t
pub record CreateArgs : Type 0 where
  pub epm_region : Pregion
  pub utm_region : Pregion
  pub runtime_paddr : ℕ
  pub user_paddr : ℕ
  pub free_paddr : ℕ
  pub free_requested : ℕ

-- struct cpu_state
pub record CpuState : Type 0 where
  pub is_enclave : Bool
  pub eid : ℕ

pub data Vector : Type 0 where
  host_vector enclave_vector : Vector

-- What a hart has of its own during a trap: the saved registers, of which `gpr` is the array of 32
-- words, and the control registers that the monitor reads or writes.
pub record Hart : Type 0 where
  pub gpr : ℕ → ℕ
  pub mepc : ℕ
  pub mstatus : ℕ
  pub csrs : Csrs
  pub mideleg : ℕ
  pub mip : ℕ
  pub mtvec : Vector

-- The state that the harts share: the static variables of the monitor, the physical memory, and
-- the PMP registers of each hart.
pub record Machine : Type 0 where
  pub pmp : Pmp
  pub enclaves : ℕ → Enclave
  pub cpus : ℕ → CpuState
  pub pmp_regs : ℕ → PmpRegs
  pub mem : ℕ → ℕ
  pub sm_region_id : ℕ
  pub os_region_id : ℕ

abbrev pub with_enclave : Machine → ℕ → Enclave → Machine
with_enclave m eid e = record m { enclaves = update m.enclaves eid e }

-- OpenSBI and libc: the harts that can be interrupted, the request that runs a function on each
-- hart of a mask and waits for it, and `sbi_memset`.
pub record OpenSbi : Type 0 where
  pub interruptible : ℕ → Bool
  pub tlb_request : (ℕ → Bool) → (PmpRegs → PmpRegs) → (ℕ → PmpRegs) → ℕ → PmpRegs
  pub memset : (ℕ → ℕ) → ℕ → ℕ → ℕ → ℕ → ℕ
  pub tlb_request_lem :
      (mask : ℕ → Bool) (f : PmpRegs → PmpRegs) (regs : ℕ → PmpRegs) (hart : ℕ)
      → tlb_request mask f regs hart ≡ (if mask hart then f (regs hart) else regs hart)
  pub memset_lem :
      (mem : ℕ → ℕ) (base value size a : ℕ)
      → memset mem base value size a ≡ (if leb base a && ltb a (base + size) then value else mem a)
