-- ===== src/Sm/Frame.antt =====
-- The rest of the machine under a PMP change on every hart (sm/src/pmp.c, sm/src/ipi.c).
use keystone_workspace.Base.{ℕ, ◌≡◌, refl, true, Bool-cases, inl, inr}
use keystone_workspace.Pmp.State.{is_pmp_region_valid}
use keystone_workspace.Pmp.Init.{pmp_success}
use keystone_workspace.Sm.State.{Machine, OpenSbi}
use keystone_workspace.Sm.Ipi.{pmp_set_global, pmp_unset_global, send_and_sync_pmp_ipi}

pub record SameButRegs (m m' : Machine) : Type 0 where
  pub pmp_is : m'.pmp ≡ m.pmp
  pub enclaves_are : m'.enclaves ≡ m.enclaves
  pub cpus_are : m'.cpus ≡ m.cpus
  pub mem_is : m'.mem ≡ m.mem

module _ (sbi : OpenSbi) (m : Machine) (rid : ℕ) where
  pub pmp_unset_global-SameButRegs : SameButRegs m (pmp_unset_global sbi m rid).1
  unfolding pmp_unset_global send_and_sync_pmp_ipi
  pmp_unset_global-SameButRegs = elim (Bool-cases (is_pmp_region_valid m.pmp rid)) [
    | inl v ↦
        rw (v, pmp_unset_global)
          (record { pmp_is = refl; enclaves_are = refl; cpus_are = refl; mem_is = refl })
    | inr v ↦
        rw (v, pmp_unset_global)
          (record { pmp_is = refl; enclaves_are = refl; cpus_are = refl; mem_is = refl })
  ]

  pub pmp_set_global-SameButRegs : (perm : ℕ) → SameButRegs m (pmp_set_global sbi m rid perm).1
  unfolding pmp_set_global send_and_sync_pmp_ipi
  pmp_set_global-SameButRegs perm = elim (Bool-cases (is_pmp_region_valid m.pmp rid)) [
    | inl v ↦
        rw (v, pmp_set_global)
          (record { pmp_is = refl; enclaves_are = refl; cpus_are = refl; mem_is = refl })
    | inr v ↦
        rw (v, pmp_set_global)
          (record { pmp_is = refl; enclaves_are = refl; cpus_are = refl; mem_is = refl })
  ]

  pub pmp_set_global-valid :
      (perm : ℕ)
      → is_pmp_region_valid m.pmp rid ≡ true
      → (pmp_set_global sbi m rid perm).0 ≡ pmp_success
  unfolding pmp_set_global
  pmp_set_global-valid perm v = rw (v, pmp_set_global)
