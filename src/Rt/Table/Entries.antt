-- ===== src/Rt/Table/Entries.antt =====
-- Entries of page tables: their parts, and the index of an address at each level.
use keystone_workspace.Base.{
  ℕ, ◌+◌, ◌-◌, ◌*◌, ◌/◌, ◌%◌, ◌^◌, ◌<◌, ◌≤◌, ◌≡◌, refl, ◌∙◌, ap, true, ◌==◌, arith,
}
use keystone_workspace.Base.Words.{bor, shl, shr}
use keystone_workspace.Base.Words.Masks.{band_ones, bor_lt}
use keystone_workspace.Base.Words.Fields.{bor_fields, bor_odd}
use keystone_workspace.Rt.Words.{page_bits, load_start, va, pa}
use keystone_workspace.Rt.Table.{
  pte_create, ptd_create, ppn, pte_ppn, pte_valid, pt_index, table_of, pte_v,
}

pub pt_index_lem : (addr n : ℕ) → pt_index addr n ≡ addr / 2 ^ (9 * (3 - n) + 12) % 512
unfolding pt_index shr
pt_index_lem addr n = band_ones 64 (addr / 2 ^ (9 * (3 - n) + 12)) 9 (omega arith)

pub pt_index_lt : (addr n : ℕ) → pt_index addr n < 512
pt_index_lt addr n = omega (arith, pt_index_lem addr n)

pub pte_valid_lem : (pte : ℕ) → pte_valid pte ≡ (pte % 2 == 1)
unfolding pte_valid
pte_valid_lem pte = rw (band_ones 64 pte 1 (omega arith)) (ground arith)

one_low : bor 10 0 1 ≡ 1
unfolding bor
one_low = refl

pte_create_fields :
    (ppn kind : ℕ) → ppn < 2 ^ 54 → pte_create ppn kind ≡ ppn * 1024 + bor 10 1 (kind % 1024)
unfolding pte_create shl
pte_create_fields ppn kind h =
    let m : (ppn * 2 ^ 10) % 2 ^ 64 ≡ ppn * 1024 + 0 = omega arith in
    let f = bor_fields 10 64 ppn 0 1 (omega arith) (omega arith) (omega arith) (omega arith) in
    let g =
      bor_fields 10 64 ppn 1 (kind % 1024) (omega arith) (omega arith) (omega arith)
        (omega arith) in
    let f' : bor 64 (ppn * 1024 + 0) 1 ≡ ppn * 1024 + 1 =
      f ∙ ap (λ (t : ℕ). ppn * 1024 + t) one_low in
    rw (band_ones 64 kind 10 (omega arith), m, f') g

flags_odd : (t : ℕ) → bor 10 1 t % 2 ≡ 1
flags_odd t = bor_odd 9 1 t (refl)

-- An entry that is created is valid and has the page number that it was given.
pub pte_create_lem :
    (ppn kind : ℕ)
    → ppn < 2 ^ 54
    → (pte_valid (pte_create ppn kind) ≡ true) × (pte_ppn (pte_create ppn kind) ≡ ppn)
unfolding pte_ppn shr
pte_create_lem ppn kind h =
    let low = bor_lt 10 1 (kind % 1024) 10 (omega arith) (omega arith) in
    let e = pte_create_fields ppn kind h in
    let odd : pte_create ppn kind % 2 ≡ 1 = omega (arith, e, flags_odd (kind % 1024)) in
    (rw (pte_valid_lem (pte_create ppn kind), odd) refl, rw e (omega (arith, low)))

-- A page of the enclave, from its physical page number.
pub va-ppn :
    (load_pa p : ℕ)
    → p % 4096 ≡ 0
    → load_start ≤ p
    → p < 2 ^ 64
    → load_pa % 4096 ≡ 0
    → load_pa + (p - load_start) < 2 ^ 56
    → va load_pa (shl 64 (ppn (pa load_pa p)) page_bits) ≡ p
unfolding shl shr
va-ppn load_pa p z l u zl b = omega arith

-- The entry for a table leads to it.
pub table_of-ptd_create :
    (load_pa p : ℕ)
    → p % 4096 ≡ 0
    → load_start ≤ p
    → p < 2 ^ 64
    → load_pa % 4096 ≡ 0
    → load_pa + (p - load_start) < 2 ^ 56
    → table_of load_pa (ptd_create (ppn (pa load_pa p))) ≡ p
unfolding table_of shl shr
table_of-ptd_create load_pa p z l u zl b =
    let q = pa load_pa p in
    let eq : q ≡ load_pa + (p - load_start) = omega arith in
    let e = pte_create_lem (q / 2 ^ 12) pte_v (omega arith) in rw e.1 (omega arith)
