-- ===== src/Pmp/Regs/Reset.antt =====
-- What `pmp_init` leaves in the PMP entries. Its variable `pmpcfg` is not reset between the rounds,
-- and PMP_SET adds the old register to it.
use native.Mathlib.Decide.{ℕ_discrete}
use keystone_workspace.Base.{
  ℕ, zero, suc, ◌+◌, ◌≤◌, ◌<◌, ◌≡◌, refl, ◌∙◌, true, false, ◌==◌, if◌then◌else◌, arith,
}
use keystone_workspace.Base.Words.{bit, band, bor, bnot}
use keystone_workspace.Pmp.Regs.{PmpRegs, group, byte_mask, pmp_set_reg, pmp_init_loop, pmp_init}
use keystone_workspace.Pmp.Regs.Laws.{cfg_bit, place, cfg_bit-set, cfg_bit-set_zero}

low_group : (i : ℕ) → i < 8 → group i ≡ 0
low_group i h = ground arith

next-held :
    (i pmpcfg : ℕ) (regs : PmpRegs)
    → group i ≡ 0
    → bor 64 pmpcfg (band 64 (regs.cfg (group i)) (bnot 64 (byte_mask i)))
      ≡ (pmp_set_reg regs i 0 pmpcfg).cfg 0
unfolding pmp_set_reg
next-held i pmpcfg regs g = let t : (group i == 0) ≡ true = ground arith in rw t

-- From a round on in which `pmpcfg` holds the register, no byte changes.
loop_keeps :
    (rounds i pmpcfg : ℕ) (regs : PmpRegs) (m j : ℕ)
    → i + rounds ≤ 8
    → pmpcfg ≡ regs.cfg 0
    → m < 8
    → j < 8
    → cfg_bit (pmp_init_loop rounds i pmpcfg regs) m j ≡ cfg_bit regs m j
unfolding pmp_init_loop
loop_keeps zero i pmpcfg regs m j h e k l = refl
loop_keeps (suc rounds) i pmpcfg regs m j h e k l =
    let gi : group i ≡ 0 = low_group i (omega arith) in
    let gm : group m ≡ 0 = low_group m k in
    let held : bit pmpcfg (place m j) ≡ cfg_bit regs m j = ground arith in
    loop_keeps rounds (i + 1) _ (pmp_set_reg regs i 0 pmpcfg) m j (omega arith)
      (next-held i pmpcfg regs gi) k l
    ∙ cfg_bit-set regs i m 0 pmpcfg j (omega arith) (omega arith) l
    ∙ ground arith

first_round :
    (regs : PmpRegs) (n j : ℕ)
    → n < 8
    → j < 8
    → cfg_bit (pmp_init_loop 8 0 0 regs) n j ≡ (if n == 0 then false else cfg_bit regs n j)
unfolding pmp_init_loop
first_round regs n j h k =
    loop_keeps 7 1 _ (pmp_set_reg regs 0 0 0) n j (omega arith) (next-held 0 0 regs refl) h k
    ∙ cfg_bit-set_zero regs 0 n 0 j (omega arith) (omega arith) k
    ∙ ground arith

loop_addr_kept :
    (rounds i pmpcfg : ℕ) (regs : PmpRegs) (m : ℕ)
    → m < i
    → (pmp_init_loop rounds i pmpcfg regs).addr m ≡ regs.addr m
unfolding pmp_init_loop pmp_set_reg
loop_addr_kept zero i pmpcfg regs m h = refl
loop_addr_kept (suc rounds) i pmpcfg regs m h =
    let other : (i == m) ≡ false = ground arith in
    loop_addr_kept rounds (i + 1) _ (pmp_set_reg regs i 0 pmpcfg) m (omega arith) ∙ rw other

loop_addr :
    (rounds i pmpcfg : ℕ) (regs : PmpRegs) (m : ℕ)
    → i ≤ m
    → m < i + rounds
    → (pmp_init_loop rounds i pmpcfg regs).addr m ≡ 0
unfolding pmp_init_loop pmp_set_reg
loop_addr zero i pmpcfg regs m h k = absurd (omega arith)
loop_addr (suc rounds) i pmpcfg regs m h k = elim (ℕ_discrete i m) [
  | yes e ↦
      let same : (i == m) ≡ true = ground arith in
      loop_addr_kept rounds (i + 1) _ (pmp_set_reg regs i 0 pmpcfg) m (omega arith) ∙ rw same
  | no n ↦ loop_addr rounds (i + 1) _ (pmp_set_reg regs i 0 pmpcfg) m (ground arith) (omega arith)
]

-- `pmp_init` clears the address of all eight entries, and the configuration byte of entry 0 only:
-- the bytes of the entries 1 to 7 stay as they were.
pub pmp_init_lem :
    (regs : PmpRegs) (n j : ℕ)
    → n < 8
    → j < 8
    → ((pmp_init regs).addr n ≡ 0)
      × (cfg_bit (pmp_init regs) n j ≡ (if n == 0 then false else cfg_bit regs n j))
unfolding pmp_init
pmp_init_lem regs n j h k =
    (loop_addr 8 0 0 regs n (omega arith) (omega arith), first_round regs n j h k)
