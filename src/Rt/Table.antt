-- ===== src/Rt/Table.antt =====
-- Page tables (runtime/mm/mm.c, runtime/include/mm/vm.h), built for 64 bits without USE_PAGING. An
-- entry is the word at its address. A failed `assert` ends the enclave: `hang`.
pub mod Entries
pub mod Walk
pub mod Grow
pub mod Space
pub mod Create
pub mod Store
pub mod Leaf
pub mod Ops
pub mod Map
pub mod Alloc
pub mod Free
use keystone_workspace.Base.{
  ℕ, zero, suc, ◌+◌, ◌-◌, ◌*◌, ◌/◌, ◌%◌, ◌^◌, Bool, true, false, ◌&&◌, ◌||◌, not, ltb, ◌==◌,
  if◌then◌else◌, update, Option, none, some,
}
use keystone_workspace.Base.Words.{bor, band, shl, shr}
use keystone_workspace.Base.Outcome.{Outcome, ret, hang, ◌>>=◌, ◌>>◌, sm_assert}
use keystone_workspace.Rt.Words.{Mem, page_bits, va, pa}
use keystone_workspace.Rt.Freemem.{Spa, spa_get_zero, spa_put}

abbrev pub pte_v : ℕ
pte_v = 1

abbrev pub pte_u : ℕ
pte_u = 0x10

-- PTE_A and PTE_D
abbrev pub pte_a : ℕ
pte_a = 0x40

abbrev pub pte_d : ℕ
pte_d = 0x80

abbrev pub pte_flag_mask : ℕ
pte_flag_mask = 0x3ff

abbrev pub pte_ppn_shift : ℕ
pte_ppn_shift = 10

unfoldable pub pte_create : ℕ → ℕ → ℕ
pte_create ppn kind = bor 64 (bor 64 (shl 64 ppn pte_ppn_shift) pte_v) (band 64 kind pte_flag_mask)

abbrev pub ptd_create : ℕ → ℕ
ptd_create ppn = pte_create ppn pte_v

abbrev pub ppn : ℕ → ℕ
ppn pa = shr pa page_bits

unfoldable pub pte_ppn : ℕ → ℕ
pte_ppn pte = shr pte pte_ppn_shift

-- `pte & PTE_V`
unfoldable pub pte_valid : ℕ → Bool
pte_valid pte = not (band 64 pte pte_v == 0)

-- RISCV_GET_PT_INDEX
unfoldable pub pt_index : ℕ → ℕ → ℕ
pt_index addr n = band 64 (shr addr (9 * (3 - n) + page_bits)) 511

-- `&t[idx]`
abbrev pub entry_at : ℕ → ℕ → ℕ
entry_at t idx = t + 8 * idx

-- Where a walk ends: at the entry of the last level, or at an entry that is not valid.
pub data Walked : Type 0 where
  found : ℕ → Walked
  missing : ℕ → Walked

-- `load_pa` is `load_pa_start`.
module _ (load_pa : ℕ) where
  -- The table that an entry names.
  unfoldable pub table_of : ℕ → ℕ
  unfolding pte_ppn
  table_of pte = va load_pa (shl 64 (pte_ppn pte) page_bits)

  -- The rounds of `for (i = 1; i < RISCV_PT_LEVELS; i++)`, by their number before the last level.
  unfoldable pub walk_loop : ℕ → Mem → ℕ → ℕ → Walked
  unfolding pte_valid table_of pt_index
  walk_loop zero mem t addr = found (entry_at t (pt_index addr 3))
  walk_loop (suc rounds) mem t addr =
      let slot = entry_at t (pt_index addr (3 - suc rounds)) in
      if pte_valid (mem slot) then walk_loop rounds mem (table_of (mem slot)) addr else missing slot

-- One round for each of the two tables that may be missing, and one more.
abbrev pub walk_fuel : ℕ
walk_fuel = 3

-- -1
abbrev pub minus_one : ℕ
minus_one = 0xffff_ffff_ffff_ffff

abbrev pub found_entry : Walked → Option ℕ
found_entry (found slot) = some slot
found_entry (missing slot) = none

-- `end` is the end of the free memory, `root` is `root_page_table`.
module _ (load_pa end root : ℕ) where
  abbrev pub walked : Mem → ℕ → Walked
  walked mem addr = walk_loop load_pa 2 mem root addr

  -- __walk
  abbrev pub walk : Mem → ℕ → Option ℕ
  walk mem addr = found_entry (walked mem addr)

  -- __continue_walk_create up to its call of __walk_create
  unfoldable pub create_table : Spa → ℕ → Outcome Spa
  unfolding spa_get_zero pte_create
  create_table s slot = spa_get_zero end s >>= λ r.
      let (new_page, s1) = r in
      sm_assert (not (new_page == 0))
      >> ret (record s1 { mem = update s1.mem slot (ptd_create (ppn (pa load_pa new_page))) })

  -- The end of __walk_internal with `create`; `again` is the walk from the root once more.
  unfoldable pub walk_end : (Spa → Outcome (ℕ × Spa)) → Spa → Walked → Outcome (ℕ × Spa)
  unfolding create_table
  walk_end again s (found slot) = ret (slot, s)
  walk_end again s (missing slot) = create_table s slot >>= again

  -- __walk_create, on fuel
  unfoldable pub walk_create : ℕ → Spa → ℕ → Outcome (ℕ × Spa)
  unfolding walk_loop walk_end
  walk_create zero s addr = hang
  walk_create (suc fuel) s addr = walk_end (λ s1. walk_create fuel s1 addr) s (walked s.mem addr)
