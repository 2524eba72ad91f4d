-- ===== src/Sm/Create/Opened.antt =====
-- `create_enclave`, from the point on where both regions are allocated.
use keystone_workspace.Base.{
  ℕ, ◌+◌, ◌≡◌, ◌≢◌, ◌∙◌, refl, ap, ==_iff, true, false, ◌&&◌, ltb, leb, ◌==◌, if◌then◌else◌, arith,
  List, some,
}
use keystone_workspace.Pmp.State.{pmp_no_perm, is_pmp_region_valid}
use keystone_workspace.Sm.Codes.{success}
use keystone_workspace.Sm.State.{fresh, Enclave, CreateArgs, RuntimeParams, Hart, Machine, OpenSbi}
use keystone_workspace.Sm.Frame.{pmp_set_global-SameButRegs, pmp_set_global-valid}
use keystone_workspace.Sm.Ipi.{pmp_set_global}
use keystone_workspace.Sm.Measure.{Crypto, validate_and_hash_epm, validate_and_hash_enclave}
use keystone_workspace.Sm.Enclave.{clean_enclave_memory, params_of, platform_create_enclave}
use keystone_workspace.Sm.Create.{init_enclave, create_validated, create_with_regions}

-- The measurement that an enclave with these parameters gets.
abbrev pub measured : Crypto → (ℕ → ℕ) → CreateArgs → List ℕ
measured c mem a = (validate_and_hash_enclave c mem (params_of a)).1

-- A new enclave at `eid`, over `m`: its metadata, its measurement, and a cleared shared region.
pub record Opened (c : Crypto) (h : Hart) (a : CreateArgs) (m : Machine) (eid region shared : ℕ)
    (m' : Machine) : Type 0 where
  pub enclave_is : m'.enclaves eid ≡ record (init_enclave (m.enclaves eid) a eid region shared h) {
    hash = measured c m'.mem a;
    state = fresh;
  }
  pub others_are : (j : ℕ) → eid ≢ j → m'.enclaves j ≡ m.enclaves j
  pub cpus_are : m'.cpus ≡ m.cpus
  pub pmp_is : m'.pmp ≡ m.pmp
  pub mem_is :
      (x : ℕ)
      → m'.mem x ≡ (
          if leb a.utm_region.paddr x && ltb x (a.utm_region.paddr + a.utm_region.size)
          then 0
          else m.mem x)

module _ (sbi : OpenSbi) (c : Crypto) (h : Hart) (a : CreateArgs) where
  validate-success :
      (mem : ℕ → ℕ) (p : RuntimeParams) → (validate_and_hash_enclave c mem p).0 ≡ success
  unfolding validate_and_hash_enclave validate_and_hash_epm
  validate-success mem p = refl

  pub create_with_regions-Opened :
      (m : Machine) (eid region shared : ℕ)
      → is_pmp_region_valid m.pmp region ≡ true
      → let r = create_with_regions sbi c h a m eid region shared in
        (r.code ≡ success) × (r.eid ≡ some eid) × Opened c h a m eid region shared r.machine
  unfolding create_with_regions create_validated clean_enclave_memory platform_create_enclave
      init_enclave
  create_with_regions-Opened m eid region shared v =
      let set = pmp_set_global sbi m region pmp_no_perm in
      let same = pmp_set_global-SameButRegs sbi m region pmp_no_perm in
      let ok = pmp_set_global-valid sbi m region pmp_no_perm v in
      let self : (eid == eid) ≡ true = (==_iff eid eid).1 refl in
      rw (ok, validate-success)
        (
          refl,
          refl,
          record {
            enclave_is = rw (self, same.enclaves_are) refl;
            others_are = λ j n.
                let other : (eid == j) ≡ false = ground arith in
                rw other (ap (λ (f : ℕ → Enclave). f j) same.enclaves_are);
            cpus_are = same.cpus_are;
            pmp_is = same.pmp_is;
            mem_is = λ x.
                sbi.memset_lem set.1.mem a.utm_region.paddr 0 a.utm_region.size x
                ∙ rw same.mem_is refl;
          },
        )
