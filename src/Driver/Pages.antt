-- ===== src/Driver/Pages.antt =====
-- Private and shared memory of an enclave (linux-keystone-driver/keystone-page.c). What the pages
-- hold is not in the model.
use keystone_workspace.Base.{
  ℕ, zero, suc, ◌+◌, ◌-◌, ◌*◌, ◌/◌, ◌%◌, ◌^◌, true, false, ◌||◌, ltb, ◌==◌, if◌then◌else◌, update,
}
use keystone_workspace.Driver.State.{Code, ok, enomem, Epm, Utm, Host, Kernel}

-- `ilog2(x) + 1`, the number of binary digits of an unsigned int; ilog2(0) is -1.
unfoldable pub digits : ℕ → ℕ → ℕ
digits zero x = 0
digits (suc fuel) x = let rest = digits fuel (x / 2) in if x == 0 then 0 else rest + 1

module _ {M : Type 0} (k : Kernel M) where
  abbrev pub release : Host M → ℕ → Host M
  release h ptr = record h { blocks = update h.blocks ptr false }

  abbrev pub taken : Host M → ℕ → Host M
  taken h ptr = record h { blocks = update h.blocks ptr true }

  -- dma_free_coherent and free_pages both release the block.
  unfoldable pub epm_destroy : Host M → Epm → Host M
  epm_destroy h epm = if epm.ptr == 0 || epm.size == 0 then h else release h epm.ptr

  unfoldable pub utm_destroy : Host M → Utm → Host M
  utm_destroy h utm = if utm.ptr == 0 then h else release h utm.ptr

  -- The block from the buddy allocator
  abbrev pub epm_buddy : Host M → Epm → ℕ → ℕ → Code × Epm × Host M
  epm_buddy h epm order ptr = (
    ok,
    record {
      ptr = ptr;
      size = 2 ^ order * 4096;
      order = order;
      phys = k.phys_of ptr;
      is_cma = false;
    },
    taken h ptr,
  )

  -- The block from the CMA, if there is one
  abbrev pub epm_cma : Host M → Epm → ℕ → ℕ → ℕ × ℕ → Code × Epm × Host M
  epm_cma h epm order count (ptr, phys) =
      if ptr == 0 || phys == 0 then (enomem, record epm { is_cma = true }, h) else (
        ok,
        record { ptr = ptr; size = count * 4096; order = order; phys = phys; is_cma = true },
        taken h ptr,
      )

  unfoldable pub epm_init : Host M → Epm → ℕ → Code × Epm × Host M
  unfolding digits
  epm_init h epm min_pages =
      let order = digits 32 ((min_pages + 2 ^ 32 - 1) % 2 ^ 32) in
      let ptr = if ltb order k.max_order then k.get_free_pages h order else 0 in
      if ptr == 0
      then epm_cma h epm order min_pages (k.dma_alloc_coherent h (min_pages * 4096))
      else epm_buddy h epm order ptr

  -- The size is not written on failure, and the address is NULL then.
  unfoldable pub utm_init : Host M → Utm → ℕ → Code × Utm × Host M
  unfolding digits
  utm_init h utm untrusted_size =
      let req_pages = (untrusted_size + 4095) % 2 ^ 64 / 4096 in
      let order = digits 64 ((req_pages + 2 ^ 64 - 1) % 2 ^ 64) in
      let ptr = k.get_free_pages h order in
      if ptr == 0
      then (enomem, record utm { ptr = 0; order = order }, h)
      else (ok, record { ptr = ptr; size = 2 ^ order * 4096; order = order }, taken h ptr)
