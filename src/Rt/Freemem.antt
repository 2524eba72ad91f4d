-- ===== src/Rt/Freemem.antt =====
-- The page allocator (runtime/mm/freemem.c), built without USE_PAGING. The free pages are a list
-- that is linked through their first words. A failed `assert` ends the enclave: `hang`.
pub mod Queue
pub mod Laws
pub mod Refine
pub mod Init
pub mod Loader
use keystone_workspace.Base.{
  ℕ, zero, suc, ◌+◌, ◌-◌, ◌%◌, ◌/◌, ◌^◌, Bool, true, false, ◌&&◌, ◌||◌, not, ltb, leb, ◌==◌,
  if◌then◌else◌, update,
}
use keystone_workspace.Base.Outcome.{Outcome, ret, hang, ◌>>=◌, ◌>>◌, sm_assert}
use keystone_workspace.Rt.Words.{
  Mem, page_bits, riscv_page_size, load_start, is_aligned, clear_page,
}

-- spa_free_pages and the memory, where the pages keep the list
pub record Spa : Type 0 where
  pub head : ℕ
  pub tail : ℕ
  pub count : ℕ
  pub mem : Mem

abbrev pub list_empty : Spa → Bool
list_empty s = s.count == 0 || s.head == 0

abbrev pub list_init : Spa → Spa
list_init s = record s { head = 0; tail = 0; count = 0 }

abbrev pub next_page : Spa → ℕ → ℕ
next_page s page = s.mem page

abbrev pub zero_if : Bool → ℕ → Spa → Spa
zero_if true page s = record s { mem = clear_page s.mem page }
zero_if false page s = s

-- The page is linked behind the last one, or is the first.
abbrev pub link : Spa → ℕ → Outcome Spa
link s page =
    if list_empty s
    then ret (record s { head = page })
    else sm_assert (not (s.tail == 0)) >> ret (record s { mem = update s.mem s.tail page })

abbrev pub finish_put : ℕ → Spa → Outcome Spa
finish_put page s =
    ret (record s { mem = update s.mem page 0; tail = page; count = (s.count + 1) % 2 ^ 32 })

abbrev pub spa_available : Spa → ℕ
spa_available s = s.count

-- `end` is `freemem_va_start + freemem_size`.
module _ (end : ℕ) where
  -- __spa_get
  unfoldable pub spa_get_page : Bool → Spa → Outcome (ℕ × Spa)
  spa_get_page is_zero s =
      if list_empty s
      then ret (0, s)
      else let free_page = s.head in
        let s1 = record s { head = next_page s s.head; count = (s.count + 2 ^ 32 - 1) % 2 ^ 32 } in
        sm_assert (not (free_page == 0))
        >> (sm_assert (ltb load_start free_page && ltb free_page end)
            >> ret (free_page, zero_if is_zero free_page s1))

  unfoldable pub spa_get : Spa → Outcome (ℕ × Spa)
  unfolding spa_get_page
  spa_get s = spa_get_page false s

  unfoldable pub spa_get_zero : Spa → Outcome (ℕ × Spa)
  unfolding spa_get_page
  spa_get_zero s = spa_get_page true s

  unfoldable pub spa_put : Spa → ℕ → Outcome Spa
  spa_put s page =
      sm_assert (is_aligned page page_bits)
      >> (sm_assert (leb load_start page && ltb page end) >> (link s page >>= finish_put page))

  -- `for (cur = base; cur < base + size; cur += RISCV_PAGE_SIZE)`, on fuel
  unfoldable pub init_loop : ℕ → ℕ → ℕ → Spa → Outcome Spa
  unfolding spa_put
  init_loop zero cur stop s = ret s
  init_loop (suc fuel) cur stop s =
      let rest = spa_put s cur >>= init_loop fuel ((cur + riscv_page_size) % 2 ^ 64) stop in
      if ltb cur stop then rest else ret s

  -- One round for each page.
  unfoldable pub spa_init : ℕ → ℕ → Spa → Outcome Spa
  unfolding init_loop
  spa_init base size s =
      sm_assert (is_aligned base page_bits)
      >> (sm_assert (is_aligned size page_bits)
          >> init_loop (size / riscv_page_size + 1) base ((base + size) % 2 ^ 64) (list_init s))
