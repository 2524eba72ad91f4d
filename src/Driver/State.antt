-- ===== src/Driver/State.antt =====
-- The data of the driver (linux-keystone-driver/keystone.h) and what it calls of the kernel and of
-- the security monitor. A pointer is its address, 0 is NULL.
use keystone_workspace.Base.{ℕ, Bool, Option}

-- The codes that the ioctls return, as names: 0, -ENOMEM, -EINVAL, -ENOSYS, -EFAULT.
pub data Code : Type 0 where
  ok : Code
  enomem : Code
  einval : Code
  enosys : Code
  efault : Code

pub record Epm : Type 0 where
  pub ptr : ℕ
  pub size : ℕ
  pub order : ℕ
  pub phys : ℕ
  pub is_cma : Bool

pub record Utm : Type 0 where
  pub ptr : ℕ
  pub size : ℕ
  pub order : ℕ

-- struct enclave
pub record KernelEnclave : Type 0 where
  pub eid : ℕ
  pub close_on_pexit : Bool
  pub utm : Option Utm
  pub epm : Option Epm
  pub is_init : Bool

-- struct keystone_ioctl_create_enclave
pub record CreateArg : Type 0 where
  pub eid : ℕ
  pub min_pages : ℕ
  pub utm_size : ℕ
  pub runtime_paddr : ℕ
  pub user_paddr : ℕ
  pub free_paddr : ℕ
  pub free_requested : ℕ
  pub epm_paddr : ℕ
  pub epm_size : ℕ
  pub utm_paddr : ℕ

-- struct keystone_ioctl_run_enclave
pub record RunArg : Type 0 where
  pub eid : ℕ
  pub error : ℕ
  pub value : ℕ

-- struct keystone_sbi_create_t
pub record SbiCreate : Type 0 where
  pub epm_paddr : ℕ
  pub epm_size : ℕ
  pub utm_paddr : ℕ
  pub utm_size : ℕ
  pub runtime_paddr : ℕ
  pub user_paddr : ℕ
  pub free_paddr : ℕ
  pub free_requested : ℕ

-- What the kernel keeps for the driver: the enclaves in the kernel's memory by their address, the
-- table from ids to addresses, and which blocks of pages are allocated. `monitor` is the state of
-- the security monitor, `private_data` that of the open file.
pub record Host (M : Type 0) : Type 0 where
  pub heap : ℕ → Option KernelEnclave
  pub idr_enclave : ℕ → Option ℕ
  pub blocks : ℕ → Bool
  pub monitor : M
  pub private_data : ℕ

-- The calls of the security monitor: the error, the value and the state after it.
pub record Monitor (M : Type 0) : Type 0 where
  pub create_call : SbiCreate → M → (ℕ × ℕ) × M
  pub run_call : ℕ → M → (ℕ × ℕ) × M
  pub resume_call : ℕ → M → (ℕ × ℕ) × M
  pub destroy_call : ℕ → M → (ℕ × ℕ) × M

-- The calls of the kernel. kmalloc for the three structs gives their address or what they hold
-- before it is written; idr_alloc gives an id, or none for an error.
pub record Kernel (M : Type 0) : Type 0 where
  pub max_order : ℕ
  pub kmalloc_enclave : Host M → ℕ
  pub kmalloc_epm : Host M → Option Epm
  pub kmalloc_utm : Host M → Option Utm
  pub get_free_pages : Host M → ℕ → ℕ
  pub dma_alloc_coherent : Host M → ℕ → ℕ × ℕ
  pub idr_alloc : (ℕ → Option ℕ) → Option ℕ
  pub phys_of : ℕ → ℕ
