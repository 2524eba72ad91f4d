-- ===== src/Tests/Pmp.antt =====
-- Allocations of PMP regions and writes of PMP registers (sm/src/pmp.c), evaluated.
use keystone_workspace.Base.{ℕ, ◌+◌, ◌≡◌, inl, refl, Bool, true, false, ◌&&◌, arith, some}
use keystone_workspace.Base.Outcome.{Outcome, ret, hang, ◌>>=◌, Returns}
use keystone_workspace.Base.Words.{band, bor, bnot, shl}
use keystone_workspace.Pmp.Bitmap.{test_bit, set_bit, unset_bit}
use keystone_workspace.Pmp.State.{
  region_needs_two_entries, ulong_max, any, top, bottom, napot, Pmp, initial, is_pmp_region_valid,
  region_clear_all, region_init,
}
use keystone_workspace.Pmp.Search.{search_rightmost_unset, search_loop}
use keystone_workspace.Pmp.Init.{
  InitResult, pmp_region_init, pmp_region_free, overlap_loop, overlaps, detect_region_overlap,
  napot_region_init, tor_region_init, pmp_success,
}
use keystone_workspace.Pmp.Init.Total.{InitSpec, Accepts, pmp_region_init-total}
use keystone_workspace.Pmp.Isolation.{Isolated, here, next, init, Reach-Isolated}
use keystone_workspace.Pmp.Regs.{PmpRegs, pmp_init, pmp_set_keystone, pmp_unset}
use keystone_workspace.Pmp.Regs.Laws.{cfg_bit}
use keystone_workspace.Pmp.Regs.Program.{Programmed, Cleared, pmp_set_keystone_lem, pmp_unset_lem}
use keystone_workspace.Pmp.Regs.Reset.{pmp_init_lem}
use keystone_workspace.Pmp.Sharing.{free_shared}

abbrev after_init : Outcome InitResult → Pmp
after_init (ret r) = r.pmp
after_init hang = initial

-- The monitor's own region, as `smm_init` makes it.
smm : Pmp
unfolding pmp_region_init detect_region_overlap overlap_loop overlaps napot_region_init
    tor_region_init search_rightmost_unset search_loop test_bit set_bit unset_bit band bor bnot shl
    region_init is_pmp_region_valid
smm = after_init (pmp_region_init initial 0x8000_0000 0x20_0000 top false)

smm_result : InitResult
smm_result = record { code = 0; rid = some 0; pmp = smm }

smm_call : pmp_region_init initial 0x8000_0000 0x20_0000 top false ≡ ret smm_result
unfolding smm smm_result
smm_call = refl

Reach-Isolated_example : Isolated smm_result.pmp
Reach-Isolated_example =
    Reach-Isolated (next here (init 0x8000_0000 0x20_0000 top false smm_result (inl refl) smm_call))

pmp_region_init-total_example :
    Returns
      (λ r.
        InitSpec initial 0x9000_0000 0x3000 false r
        × Accepts initial 0x9000_0000 0x3000 false r.code)
      (pmp_region_init initial 0x9000_0000 0x3000 any false)
pmp_region_init-total_example =
    pmp_region_init-total initial 0x9000_0000 0x3000 false any (inl refl)

blank : PmpRegs
blank = record { addr = λ n. 0; cfg = λ g. 0 }

pmp_set_keystone_lem_example :
    Returns
      (λ r. (r.0 ≡ pmp_success) × Programmed smm 0 7 blank r.1)
      (pmp_set_keystone smm 0 7 blank)
unfolding smm
pmp_set_keystone_lem_example = pmp_set_keystone_lem smm 0 7 blank (omega arith) refl

pmp_unset_lem_example :
    Returns (λ r. (r.0 ≡ pmp_success) × Cleared smm 0 blank r.1) (pmp_unset smm 0 blank)
unfolding smm
pmp_unset_lem_example = pmp_unset_lem smm 0 blank (omega arith) refl

-- Registers that hold a rule in every entry.
full : PmpRegs
full = record { addr = λ n. 7; cfg = λ g. ulong_max }

pmp_init_lem_example :
    ((pmp_init full).addr 3 ≡ 0) × (cfg_bit (pmp_init full) 3 0 ≡ cfg_bit full 3 0)
pmp_init_lem_example = pmp_init_lem full 3 0 (omega arith) (omega arith)

-- Two regions of priority BOTTOM.
two_bottoms : Pmp
two_bottoms =
    region_init
      (region_init (record initial { region_def_bitmap = 3; reg_bitmap = 128 }) 0 0 ulong_max napot
        true 7)
      1 0x9000_0000 0x1000 napot false 7

free_shared_example :
    let q = (pmp_region_free two_bottoms 1).1 in
    (is_pmp_region_valid q 0 ≡ true)
    × ((q.regions 0).reg_idx ≡ 7)
    × (test_bit q.reg_bitmap 7 ≡ false)
unfolding two_bottoms smm
free_shared_example =
    free_shared two_bottoms 1 0 7 (omega arith) (omega arith) (omega arith)
      (λ e. absurd (omega arith)) refl refl refl refl

-- One enclave: a private region and the shared region.
enclave_at : Pmp → ℕ → ℕ → Outcome Pmp
enclave_at p base size = do
  epm ← pmp_region_init p base size any false
  utm ← pmp_region_init epm.pmp (base + 0x100_0000) 0x1000 bottom false
  ret utm.pmp

-- The monitor, the operating system and six enclaves; the last is destroyed.
crowded : Outcome Pmp
unfolding enclave_at
crowded = do
  smm ← pmp_region_init initial 0x8000_0000 0x20_0000 top false
  osm ← pmp_region_init smm.pmp 0 ulong_max bottom true
  a ← enclave_at osm.pmp 0x9000_0000 0x1000
  b ← enclave_at a 0xa000_0000 0x1000
  c ← enclave_at b 0xb000_0000 0x1000
  d ← enclave_at c 0xc000_0000 0x1000
  e ← enclave_at d 0xd000_0000 0x1000
  f ← enclave_at e 0xe000_0000 0x1000
  ret (pmp_region_free (pmp_region_free f 12).1 13).1

-- The next enclave, with a private region of three pages.
intruder : Outcome (ℕ × ℕ × Bool)
intruder = do
  p ← crowded
  r ← pmp_region_init p 0xf000_0000 0x3000 any false
  ret (
    (r.pmp.regions 1).reg_idx,
    (r.pmp.regions 12).reg_idx,
    is_pmp_region_valid r.pmp 1 && is_pmp_region_valid r.pmp 12,
  )

-- Its private region and the region of the operating system are given the same register, 7.
intruder_shares : intruder ≡ ret (7, 7, true)
unfolding intruder crowded smm pmp_region_free region_clear_all region_needs_two_entries
intruder_shares = refl
