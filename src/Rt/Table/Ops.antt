-- ===== src/Rt/Table/Ops.antt =====
-- The operations on single pages and on runs of pages (runtime/mm/mm.c), built without USE_PAGING.
use keystone_workspace.Base.{
  ℕ, zero, suc, ◌+◌, ◌%◌, ◌^◌, Bool, false, not, ◌==◌, if◌then◌else◌, update, Option, none, some,
}
use keystone_workspace.Base.Words.{bor, band, shl}
use keystone_workspace.Base.Outcome.{Outcome, ret, ◌>>=◌, ◌>>◌, sm_assert}
use keystone_workspace.Rt.Words.{Mem, page_bits, riscv_page_size, va, pa}
use keystone_workspace.Rt.Freemem.{Spa, spa_get_zero, spa_put}
use keystone_workspace.Rt.Table.{
  walk, walk_create, walk_fuel, minus_one, pte_valid, pte_ppn, pte_create, ppn, pte_u, pte_a, pte_d,
  pte_v,
}

abbrev pub page_address : ℕ → ℕ
page_address vpn = shl 64 vpn page_bits

-- `PTE_D | PTE_A | PTE_V | flags`
abbrev pub used_flags : ℕ → ℕ
used_flags flags = bor 64 (bor 64 (bor 64 pte_d pte_a) pte_v) flags

-- `pte && *pte`
abbrev pub is_taken : Mem → Option ℕ → Bool
is_taken mem none = false
is_taken mem (some pte) = not (mem pte == 0)

abbrev pub address_in : Mem → ℕ → Option ℕ → ℕ
address_in mem addr none = 0
address_in mem addr (some pte) =
    if pte_valid (mem pte)
    then bor 64 (shl 64 (pte_ppn (mem pte)) page_bits) (addr % riscv_page_size)
    else 0

module _ (load_pa end root : ℕ) where
  unfoldable pub map_page : Spa → ℕ → ℕ → ℕ → Outcome (ℕ × Spa)
  unfolding walk_create pte_valid pte_create
  map_page s vpn page flags = walk_create load_pa end root walk_fuel s (page_address vpn) >>= λ r.
      let (pte, s1) = r in
      if pte_valid (s1.mem pte)
      then ret (minus_one, s1)
      else ret (1, record s1 { mem = update s1.mem pte (pte_create page (used_flags flags)) })

  -- The end of alloc_page, with the entry and the page from the free memory
  unfoldable pub alloc_with : ℕ → ℕ → ℕ × Spa → Outcome (ℕ × Spa)
  unfolding pte_create
  alloc_with flags pte (page, s) =
      sm_assert (not (page == 0))
      >> ret (
        page,
        record s { mem = update s.mem pte (pte_create (ppn (pa load_pa page)) (used_flags flags)) },
      )

  -- alloc_page with the entry that the walk gave
  unfoldable pub alloc_at : ℕ → ℕ × Spa → Outcome (ℕ × Spa)
  unfolding pte_valid spa_get_zero alloc_with
  alloc_at flags (pte, s) =
      if pte == 0
      then ret (0, s)
      else if pte_valid (s.mem pte)
      then ret (va load_pa (shl 64 (s.mem pte) page_bits), s)
      else spa_get_zero end s >>= alloc_with flags pte

  unfoldable pub alloc_page : Spa → ℕ → ℕ → Outcome (ℕ × Spa)
  unfolding walk_create alloc_at
  alloc_page s vpn flags =
      walk_create load_pa end root walk_fuel s (page_address vpn) >>= alloc_at flags

  -- realloc_page on a valid entry, with the new entry
  abbrev pub remapped : Spa → ℕ → ℕ → ℕ × Spa
  remapped s pte entry =
      (va load_pa (shl 64 entry page_bits), record s { mem = update s.mem pte entry })

  abbrev pub realloc_at : Spa → ℕ → Option ℕ → ℕ × Spa
  realloc_at s flags none = (0, s)
  realloc_at s flags (some pte) =
      if pte_valid (s.mem pte)
      then remapped s pte (pte_create (pte_ppn (s.mem pte)) flags)
      else (0, s)

  unfoldable pub realloc_page : Spa → ℕ → ℕ → Outcome (ℕ × Spa)
  unfolding pte_valid pte_create pte_ppn
  realloc_page s vpn flags =
      sm_assert (not (band 64 flags pte_u == 0))
      >> ret (realloc_at s flags (walk load_pa end root s.mem (page_address vpn)))

  unfoldable pub free_at : Spa → Option ℕ → Outcome Spa
  unfolding pte_valid pte_ppn spa_put
  free_at s none = ret s
  free_at s (some pte) =
      if not (pte_valid (s.mem pte))
      then ret s
      else sm_assert (not (band 64 (s.mem pte) pte_u == 0))
        >> (let ppn = pte_ppn (s.mem pte) in
            spa_put end (record s { mem = update s.mem pte 0 }) (va load_pa (shl 64 ppn page_bits)))

  unfoldable pub free_page : Spa → ℕ → Outcome Spa
  unfolding free_at
  free_page s vpn = free_at s (walk load_pa end root s.mem (page_address vpn))

  -- `for (i = 0; i < count; i++)` from `i` on, for a count below 2^32
  unfoldable pub alloc_pages_loop : ℕ → ℕ → Spa → ℕ → ℕ → Outcome (ℕ × Spa)
  unfolding alloc_page
  alloc_pages_loop zero i s vpn flags = ret (i, s)
  alloc_pages_loop (suc rounds) i s vpn flags = alloc_page s ((vpn + i) % 2 ^ 64) flags >>= λ r.
      let (page, s1) = r in
      if page == 0 then ret (i, s1) else alloc_pages_loop rounds (i + 1) s1 vpn flags

  abbrev pub alloc_pages : Spa → ℕ → ℕ → ℕ → Outcome (ℕ × Spa)
  alloc_pages s vpn count flags = alloc_pages_loop count 0 s vpn flags

  unfoldable pub free_pages_loop : ℕ → ℕ → Spa → ℕ → Outcome Spa
  unfolding free_page
  free_pages_loop zero i s vpn = ret s
  free_pages_loop (suc rounds) i s vpn =
      free_page s ((vpn + i) % 2 ^ 64) >>= λ s1. free_pages_loop rounds (i + 1) s1 vpn

  abbrev pub free_pages : Spa → ℕ → ℕ → Outcome Spa
  free_pages s vpn count = free_pages_loop count 0 s vpn

  unfoldable pub range_loop : ℕ → ℕ → Mem → ℕ → ℕ
  range_loop zero i mem vpn = i
  range_loop (suc rounds) i mem vpn =
      let rest = range_loop rounds (i + 1) mem vpn in
      if is_taken mem (walk load_pa end root mem (page_address ((vpn + i) % 2 ^ 64)))
      then i
      else rest

  abbrev pub test_va_range : Mem → ℕ → ℕ → ℕ
  test_va_range mem vpn count = range_loop count 0 mem vpn

  unfoldable pub translate : Mem → ℕ → ℕ
  unfolding pte_valid pte_ppn
  translate mem addr = address_in mem addr (walk load_pa end root mem addr)

  abbrev pub pte_of_va : Mem → ℕ → Option ℕ
  pte_of_va mem addr = walk load_pa end root mem addr
