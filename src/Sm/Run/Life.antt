-- ===== src/Sm/Run/Life.antt =====
-- What the four calls that run and leave an enclave do to the machine.
use keystone_workspace.Base.{
  ℕ, zero, suc, ◌+◌, ◌-◌, ◌<◌, ◌≡◌, ◌≢◌, ◌∙◌, refl, sym, subst, true, ltb, arith, Bool-cases, inl,
  inr,
}
use keystone_workspace.Base.Outcome.{Outcome, Returns, returns, Returns-bind}
use keystone_workspace.Pmp.State.{Pmp, pmp_n_reg, is_pmp_region_valid, region_needs_two_entries}
use keystone_workspace.Pmp.Regs.{PmpRegs, pmp_set_keystone}
use keystone_workspace.Sm.State.{Enclave, Machine, region_none, type_eq}
use keystone_workspace.Sm.Ipi.{local_pmp_set}
use keystone_workspace.Sm.Switch.{set_regions}

-- Every entry of the region table names a PMP register that exists.
abbrev pub RegsLow : Pmp → Type 0
RegsLow p = (i : ℕ) → (p.regions i).reg_idx < pmp_n_reg

-- Only the PMP registers of one hart may differ.
pub record OnlyRegs (hart : ℕ) (m m' : Machine) : Type 0 where
  pub pmp_is : m'.pmp ≡ m.pmp
  pub enclaves_are : m'.enclaves ≡ m.enclaves
  pub cpus_are : m'.cpus ≡ m.cpus
  pub mem_is : m'.mem ≡ m.mem
  pub os_is : m'.os_region_id ≡ m.os_region_id
  pub sm_is : m'.sm_region_id ≡ m.sm_region_id
  pub others_are : (k : ℕ) → k ≢ hart → m'.pmp_regs k ≡ m.pmp_regs k

pmp_set_keystone-total :
    (p : Pmp) (rid perm : ℕ) (regs : PmpRegs)
    → (p.regions rid).reg_idx < pmp_n_reg
    → Returns (λ r. Unit {0}) (pmp_set_keystone p rid perm regs)
unfolding pmp_set_keystone
pmp_set_keystone-total p rid perm regs h =
    let in_switch : ltb (p.regions rid).reg_idx 16 ≡ true = ground arith in
    let before : ltb ((p.regions rid).reg_idx - 1) 16 ≡ true = ground arith in
    elim (Bool-cases (is_pmp_region_valid p rid)) [
      | inl v ↦ elim (Bool-cases (region_needs_two_entries p rid)) [
        | inl e ↦ rw (v, in_switch, e, before) (returns tt)
        | inr e ↦ rw (v, in_switch, e) (returns tt)
      ]
      | inr v ↦ rw v (returns tt)
    ]

module _ (hart : ℕ) where
  pub local_pmp_set-total :
      (m : Machine) (rid perm : ℕ)
      → RegsLow m.pmp
      → Returns (λ r. OnlyRegs hart m r.1) (local_pmp_set m hart rid perm)
  unfolding local_pmp_set
  local_pmp_set-total m rid perm low =
      Returns-bind (pmp_set_keystone-total m.pmp rid perm (m.pmp_regs hart) (low rid)) λ r _.
        returns (record {
          pmp_is = refl;
          enclaves_are = refl;
          cpus_are = refl;
          mem_is = refl;
          os_is = refl;
          sm_is = refl;
          others_are = λ k n. ground arith;
        })

  pub OnlyRegs-trans : {a b c : Machine} → OnlyRegs hart a b → OnlyRegs hart b c → OnlyRegs hart a c
  OnlyRegs-trans f g = record {
    pmp_is = g.pmp_is ∙ f.pmp_is;
    enclaves_are = g.enclaves_are ∙ f.enclaves_are;
    cpus_are = g.cpus_are ∙ f.cpus_are;
    mem_is = g.mem_is ∙ f.mem_is;
    os_is = g.os_is ∙ f.os_is;
    sm_is = g.sm_is ∙ f.sm_is;
    others_are = λ k n. g.others_are k n ∙ f.others_are k n;
  }

  OnlyRegs-refl : (m : Machine) → OnlyRegs hart m m
  OnlyRegs-refl m = record {
    pmp_is = refl;
    enclaves_are = refl;
    cpus_are = refl;
    mem_is = refl;
    os_is = refl;
    sm_is = refl;
    others_are = λ k n. refl;
  }

  pub set_regions-total :
      (rounds memid : ℕ) (e : Enclave) (perm : ℕ) (m : Machine)
      → RegsLow m.pmp
      → Returns (λ m'. OnlyRegs hart m m') (set_regions rounds memid e perm hart m)
  unfolding set_regions
  set_regions-total zero memid e perm m low = returns (OnlyRegs-refl m)
  set_regions-total (suc rounds) memid e perm m low =
      elim (Bool-cases (type_eq (e.regions memid).type region_none)) [
        | inl t ↦ rw t (set_regions-total rounds (memid + 1) e perm m low)
        | inr t ↦ rw t (
            Returns-bind (local_pmp_set-total m (e.regions memid).pmp_rid perm low) λ r f.
              after f (
                set_regions-total rounds (memid + 1) e perm r.1 (subst RegsLow (sym f.pmp_is) low)))
      ]
    where
      after :
          {b : Machine} {o : Outcome Machine}
          → OnlyRegs hart m b
          → Returns (λ m'. OnlyRegs hart b m') o
          → Returns (λ m'. OnlyRegs hart m m') o
      after f (returns g) = returns (OnlyRegs-trans f g)
