-- ===== src/Pmp/Regs/Laws.antt =====
-- What the register writes leave in each configuration byte.
use keystone_workspace.Base.{
  ℕ, ◌+◌, ◌-◌, ◌*◌, ◌%◌, ◌<◌, ◌≡◌, inl, inr, refl, ap, ◌∙◌, Bool, true, false, not, ◌&&◌, ◌||◌,
  ◌==◌, ==_iff, if◌then◌else◌, arith, Bool-cases,
}
use keystone_workspace.Base.Words.{bit, band, bnot, shl, bit-band, bit-bor, bit-bnot}
use keystone_workspace.Base.Words.Shifts.{bit-shl, bit_above}
use keystone_workspace.Base.Words.Masks.{bit_ones, bit_zero}
use keystone_workspace.Pmp.State.{pmp_per_group}
use keystone_workspace.Pmp.Regs.{PmpRegs, group, byte_mask, pmp_set_reg, pmp_unset_reg}

-- Digit `j` of the configuration byte of entry `n`.
abbrev pub place : ℕ → ℕ → ℕ
place n j = 8 * (n % pmp_per_group) + j

abbrev pub cfg_bit : PmpRegs → ℕ → ℕ → Bool
cfg_bit regs n j = bit (regs.cfg (group n)) (place n j)

place_lt : (n j : ℕ) → j < 8 → place n j < 64
place_lt n j h = omega arith

-- The mask of entry `n` covers exactly the places of its byte.
bit-byte_mask :
    (n m j : ℕ) → j < 8 → bit (byte_mask n) (place m j) ≡ (n % pmp_per_group == m % pmp_per_group)
bit-byte_mask n m j h = ground (
  arith,
  bit-shl 64 0xff (8 * (n % pmp_per_group)) (place m j) (place_lt m j h),
  bit_ones 8 (place m j - 8 * (n % pmp_per_group)),
)

-- Two entries of one register are told apart by their bytes.
same_entry :
    (n m : ℕ) → n < 16 → m < 16 → group n ≡ group m → n % pmp_per_group ≡ m % pmp_per_group → n ≡ m
same_entry n m h k e f = ground arith

-- A byte below 256, shifted to entry `n`.
pub bit-entry :
    (v n m j : ℕ)
    → v < 256
    → j < 8
    → bit (shl 64 v (8 * (n % pmp_per_group))) (place m j)
      ≡ ((n % pmp_per_group == m % pmp_per_group) && bit v j)
bit-entry v n m j h k = ground (
  arith,
  bit-shl 64 v (8 * (n % pmp_per_group)) (place m j) (place_lt m j k),
  bit_above v 8 (place m j - 8 * (n % pmp_per_group)),
  ap (λ (t : ℕ). bit v t) {x = place m j - 8 * (n % pmp_per_group)} {y = j},
)

same_byte :
    (n m : ℕ)
    → n < 16
    → m < 16
    → (group n == group m) ≡ true
    → (n % pmp_per_group == m % pmp_per_group) ≡ (n == m)
same_byte n m h k e = ground arith

kept :
    (regs : PmpRegs) (n m j : ℕ)
    → n < 16
    → m < 16
    → j < 8
    → (group n == group m) ≡ true
    → bit (band 64 (regs.cfg (group n)) (bnot 64 (byte_mask n))) (place m j)
      ≡ (cfg_bit regs m j && not (n == m))
kept regs n m j h k l e =
    let g : group n ≡ group m = (==_iff (group n) (group m)).0 e in
    rw
      (
        bit-band 64 (regs.cfg (group n)) (bnot 64 (byte_mask n)) (place m j) (place_lt m j l),
        bit-bnot 64 (byte_mask n) (place m j) (place_lt m j l),
        bit-byte_mask n m j l,
        same_byte n m h k e,
      )
      (ap (λ (t : ℕ). bit (regs.cfg t) (place m j) && not (n == m)) g)

-- What PMP_SET leaves: in the entry's own byte the digits of the value; in the other bytes of the
-- register its digits beside those of the value.
pub cfg_bit-set :
    (regs : PmpRegs) (n m pmpaddr pmpc j : ℕ)
    → n < 16
    → m < 16
    → j < 8
    → cfg_bit (pmp_set_reg regs n pmpaddr pmpc) m j ≡ (
        if group n == group m
        then bit pmpc (place m j) || (cfg_bit regs m j && not (n == m))
        else cfg_bit regs m j)
unfolding pmp_set_reg
cfg_bit-set regs n m pmpaddr pmpc j h k l = elim (Bool-cases (group n == group m)) [
  | inl e ↦ rw (
    e,
    bit-bor 64 pmpc (band 64 (regs.cfg (group n)) (bnot 64 (byte_mask n))) (place m j)
        (place_lt m j l),
    kept regs n m j h k l e,
  )
  | inr e ↦ rw e refl
]

-- What PMP_UNSET leaves: the entry's own byte is clear, every other byte is as it was.
pub cfg_bit-unset :
    (regs : PmpRegs) (n m j : ℕ)
    → n < 16
    → m < 16
    → j < 8
    → cfg_bit (pmp_unset_reg regs n) m j ≡ (cfg_bit regs m j && not (n == m))
unfolding pmp_unset_reg
cfg_bit-unset regs n m j h k l = elim (Bool-cases (group n == group m)) [
  | inl e ↦ rw e (kept regs n m j h k l e)
  | inr e ↦ let d : (n == m) ≡ false = ground arith in rw (e, d) (ground arith)
]

choose_byte :
    (g d d' b c : Bool)
    → (g ≡ true → d ≡ d')
    → (d' ≡ true → g ≡ true)
    → (if g then (d && b) || (c && not d') else c) ≡ (if d' then b else c)
choose_byte true true true b c h k = ground arith
choose_byte true false false b c h k = ground arith
choose_byte true true false b c h k = cc (h refl)
choose_byte true false true b c h k = cc (h refl)
choose_byte false d true b c h k = cc (k refl)
choose_byte false d false b c h k = refl

same_group : (n m : ℕ) → (n == m) ≡ true → (group n == group m) ≡ true
same_group n m e = let f : n ≡ m = (==_iff n m).0 e in rw f (ground arith)

-- A whole byte written to its own entry replaces that entry's byte alone.
pub cfg_bit-set_byte :
    (regs : PmpRegs) (n m pmpaddr v j : ℕ)
    → v < 256
    → n < 16
    → m < 16
    → j < 8
    → cfg_bit (pmp_set_reg regs n pmpaddr (shl 64 v (8 * (n % pmp_per_group)))) m j
      ≡ (if n == m then bit v j else cfg_bit regs m j)
cfg_bit-set_byte regs n m pmpaddr v j w h k l =
    cfg_bit-set regs n m pmpaddr (shl 64 v (8 * (n % pmp_per_group))) j h k l
    ∙ rw (bit-entry v n m j w l) (choose_byte _ _ _ _ _ (same_byte n m h k) (same_group n m))

-- A zero written to an entry clears its byte alone.
pub cfg_bit-set_zero :
    (regs : PmpRegs) (n m pmpaddr j : ℕ)
    → n < 16
    → m < 16
    → j < 8
    → cfg_bit (pmp_set_reg regs n pmpaddr 0) m j ≡ (if n == m then false else cfg_bit regs m j)
cfg_bit-set_zero regs n m pmpaddr j h k l =
    cfg_bit-set regs n m pmpaddr 0 j h k l
    ∙ rw (bit_zero (place m j)) (ground (arith, same_group n m))
