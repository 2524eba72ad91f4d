-- ===== src/Pmp/Regs/Program.antt =====
-- What `pmp_set_keystone` and `pmp_unset` leave in every PMP entry of the hart.
use keystone_workspace.Base.{
  ℕ, ◌-◌, ◌^◌, ◌<◌, ◌≡◌, inl, inr, refl, ◌∙◌, Bool, true, false, ◌&&◌, ◌||◌, ltb, ◌==◌,
  if◌then◌else◌, arith, Bool-cases,
}
use keystone_workspace.Base.Outcome.{Returns, returns}
use keystone_workspace.Base.Words.{bit, band, bor, shr}
use keystone_workspace.Base.Words.Masks.{bor_lt, band_le}
use keystone_workspace.Pmp.State.{
  pmp_all_perm, mode_bits, AddrMode, off, tor, napot, Pmp, region_pmpaddr_val, region_pmpcfg_val,
  is_pmp_region_valid, region_needs_two_entries,
}
use keystone_workspace.Pmp.Init.{pmp_success}
use keystone_workspace.Pmp.Regs.{PmpRegs, pmp_set_reg, pmp_unset_reg, pmp_set_keystone, pmp_unset}
use keystone_workspace.Pmp.Regs.Laws.{cfg_bit, cfg_bit-set_byte, cfg_bit-set_zero, cfg_bit-unset}

-- The configuration byte of a region: its address mode and the permissions.
abbrev pub region_byte : Pmp → ℕ → ℕ → ℕ
region_byte p i perm = bor 64 (mode_bits (p.regions i).addrmode) (band 8 perm pmp_all_perm)

mode_lt : (m : AddrMode) → mode_bits m < 2 ^ 8
mode_lt off = omega arith
mode_lt tor = omega arith
mode_lt napot = omega arith

region_byte_lt : (p : Pmp) (i perm : ℕ) → region_byte p i perm < 256
region_byte_lt p i perm =
    bor_lt 64 (mode_bits (p.regions i).addrmode) (band 8 perm pmp_all_perm) 8
      (mode_lt (p.regions i).addrmode) (omega (arith, band_le 8 perm pmp_all_perm))

-- Is `m` the second entry of the region?
abbrev pub is_second : Pmp → ℕ → ℕ → Bool
is_second p i m = region_needs_two_entries p i && (p.regions i).reg_idx - 1 == m

-- The entries after the region is programmed.
pub record Programmed (p : Pmp) (i perm : ℕ) (regs regs' : PmpRegs) : Type 0 where
  pub cfg_is :
      (m j : ℕ)
      → m < 16
      → j < 8
      → cfg_bit regs' m j ≡ (
          if is_second p i m
          then false
          else if (p.regions i).reg_idx == m
          then bit (region_byte p i perm) j
          else cfg_bit regs m j)
  pub addr_is :
      (m : ℕ)
      → regs'.addr m ≡ (
          if is_second p i m
          then shr (p.regions i).addr 2
          else if (p.regions i).reg_idx == m
          then region_pmpaddr_val p i
          else regs.addr m)

module _ (p : Pmp) (i perm : ℕ) (regs : PmpRegs) (low : (p.regions i).reg_idx < 16) where
  first : PmpRegs
  first =
      let n = (p.regions i).reg_idx in
      pmp_set_reg regs n (region_pmpaddr_val p i)
        (region_pmpcfg_val p i n (band 8 perm pmp_all_perm))

  cfg_bit-first :
      (m j : ℕ)
      → m < 16
      → j < 8
      → cfg_bit first m j
        ≡ (if (p.regions i).reg_idx == m then bit (region_byte p i perm) j else cfg_bit regs m j)
  unfolding first region_pmpcfg_val
  cfg_bit-first m j h k =
      cfg_bit-set_byte regs (p.regions i).reg_idx m (region_pmpaddr_val p i) (region_byte p i perm)
        j (region_byte_lt p i perm) low h k

  one_entry : region_needs_two_entries p i ≡ false → Programmed p i perm regs first
  unfolding first pmp_set_reg
  one_entry e = record {
    cfg_is = λ m j h k. rw e (cfg_bit-first m j h k);
    addr_is = λ m. rw e refl;
  }

  two_entries :
      region_needs_two_entries p i ≡ true
      → Programmed p i perm regs
          (pmp_set_reg first ((p.regions i).reg_idx - 1) (shr (p.regions i).addr 2) 0)
  unfolding first pmp_set_reg
  two_entries e = record {
    cfg_is = λ m j h k. rw e (
        cfg_bit-set_zero first ((p.regions i).reg_idx - 1) m (shr (p.regions i).addr 2) j
          (omega arith) h k
        ∙ rw (cfg_bit-first m j h k));
    addr_is = λ m. rw e refl;
  }

  -- A valid region whose register exists is programmed without an error and without a failing
  -- assertion: its entry gets the region's mode, permissions and address, the second entry of a
  -- TOR region its base with a cleared byte, and every other entry stays as it was.
  pub pmp_set_keystone_lem :
      is_pmp_region_valid p i ≡ true
      → Returns
          (λ r. (r.0 ≡ pmp_success) × Programmed p i perm regs r.1)
          (pmp_set_keystone p i perm regs)
  unfolding pmp_set_keystone first
  pmp_set_keystone_lem v =
      let in_switch : ltb (p.regions i).reg_idx 16 ≡ true = ground arith in
      let before : ltb ((p.regions i).reg_idx - 1) 16 ≡ true = ground arith in
      elim (Bool-cases (region_needs_two_entries p i)) [
        | inl e ↦ rw (v, in_switch, e, before) (returns (refl, two_entries e))
        | inr e ↦ rw (v, in_switch, e) (returns (refl, one_entry e))
      ]

-- The entries after the region is taken out of the hart.
pub record Cleared (p : Pmp) (i : ℕ) (regs regs' : PmpRegs) : Type 0 where
  pub cfg_is :
      (m j : ℕ)
      → m < 16
      → j < 8
      → cfg_bit regs' m j
        ≡ (if is_second p i m || (p.regions i).reg_idx == m then false else cfg_bit regs m j)
  pub addr_is :
      (m : ℕ)
      → regs'.addr m ≡ (if is_second p i m || (p.regions i).reg_idx == m then 0 else regs.addr m)

module _ (p : Pmp) (i : ℕ) (regs : PmpRegs) (low : (p.regions i).reg_idx < 16) where
  one_entry_off :
      region_needs_two_entries p i ≡ false
      → Cleared p i regs (pmp_unset_reg regs (p.regions i).reg_idx)
  unfolding pmp_unset_reg
  one_entry_off e = record {
    cfg_is =
        λ m j h k. rw e (cfg_bit-unset regs (p.regions i).reg_idx m j low h k ∙ (ground arith));
    addr_is = λ m. rw e refl;
  }

  both_entries_off :
      region_needs_two_entries p i ≡ true
      → Cleared p i regs
          (pmp_unset_reg (pmp_unset_reg regs (p.regions i).reg_idx) ((p.regions i).reg_idx - 1))
  unfolding pmp_unset_reg
  both_entries_off e =
      let one = pmp_unset_reg regs (p.regions i).reg_idx in
      record {
        cfg_is = λ m j h k. rw e (
            cfg_bit-unset one ((p.regions i).reg_idx - 1) m j (omega arith) h k
            ∙ rw (cfg_bit-unset regs (p.regions i).reg_idx m j low h k) (ground arith));
        addr_is = λ m. rw e (ground arith);
      }

  -- A valid region whose register exists is taken out without an error: its one or two entries
  -- are off with address 0, and every other entry stays as it was.
  pub pmp_unset_lem :
      is_pmp_region_valid p i ≡ true
      → Returns (λ r. (r.0 ≡ pmp_success) × Cleared p i regs r.1) (pmp_unset p i regs)
  unfolding pmp_unset
  pmp_unset_lem v =
      let in_switch : ltb (p.regions i).reg_idx 16 ≡ true = ground arith in
      let before : ltb ((p.regions i).reg_idx - 1) 16 ≡ true = ground arith in
      elim (Bool-cases (region_needs_two_entries p i)) [
        | inl e ↦ rw (v, in_switch, e, before) (returns (refl, both_entries_off e))
        | inr e ↦ rw (v, in_switch, e) (returns (refl, one_entry_off e))
      ]
