-- ===== src/Rt/Words.antt =====
-- Addresses of the runtime (runtime/include/mm/vm_defs.h, runtime/mm/vm.c), built for 64 bits and
-- not for the loader. The memory is a function from the address of an aligned word to the word.
use keystone_workspace.Base.{ℕ, ◌+◌, ◌-◌, ◌%◌, ◌^◌, Bool, ◌==◌, ◌&&◌, leb, ltb, if◌then◌else◌}

abbrev pub Mem : Type 0
Mem = ℕ → ℕ

abbrev pub page_bits : ℕ
page_bits = 12

abbrev pub riscv_page_size : ℕ
riscv_page_size = 4096

abbrev pub load_start : ℕ
load_start = 0xffff_ffff_0000_0000

-- IS_ALIGNED
abbrev pub is_aligned : ℕ → ℕ → Bool
is_aligned n b = n % 2 ^ b == 0

-- `memset(page, 0, RISCV_PAGE_SIZE)`
abbrev pub clear_page : Mem → ℕ → Mem
clear_page mem page a = if leb page a && ltb a (page + riscv_page_size) then 0 else mem a

-- The start of the enclave's memory, `load_pa_start`, is the first argument.
abbrev pub va : ℕ → ℕ → ℕ
va load_pa_start pa = (pa + 2 ^ 64 - load_pa_start + load_start) % 2 ^ 64

abbrev pub pa : ℕ → ℕ → ℕ
pa load_pa_start va = (va + 2 ^ 64 - load_start + load_pa_start) % 2 ^ 64
