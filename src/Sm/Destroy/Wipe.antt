-- ===== src/Sm/Destroy/Wipe.antt =====
-- What `destroy_enclave` leaves of an enclave, of its memory and of its PMP regions.
use keystone_workspace.Base.{
  ℕ, zero, suc, ◌+◌, ◌≤◌, ◌<◌, ◌≡◌, ◌≢◌, ◌∙◌, refl, sym, ap, subst, true, false, ◌&&◌, ltb, leb,
  ◌==◌, ==_iff, if◌then◌else◌, arith, Bool-cases, inl, inr, Option, some, none,
}
use keystone_workspace.Pmp.State.{Pmp, pmp_region_get_addr, pmp_region_get_size}
use keystone_workspace.Pmp.Init.{pmp_region_free}
use keystone_workspace.Sm.Codes.{success, not_destroyable}
use keystone_workspace.Sm.State.{
  EnclaveState, invalid, destroying, running, encl_max, region_none, region_epm, region_utm,
  type_eq, EnclaveRegion, Enclave, Machine, OpenSbi, enclave_regions_max,
}
use keystone_workspace.Sm.Frame.{pmp_unset_global-SameButRegs}
use keystone_workspace.Sm.Enclave.{
  enclave_exists, with_state, region_index_loop, get_enclave_region_index, encl_free_eid,
}
use keystone_workspace.Sm.Create.{free_pmp}
use keystone_workspace.Sm.Destroy.{
  is_destroyable, destroy_begin, wipe_region, wipe_loop, free_utm, reset_enclave, destroy_rest,
  destroy_enclave,
}

-- The region table of a created enclave: the private region, the shared one, and no other.
pub record Shaped (e : Enclave) (epm utm : ℕ) : Type 0 where
  pub epm_is : e.regions 0 ≡ record { pmp_rid = epm; type = region_epm }
  pub utm_is : e.regions 1 ≡ record { pmp_rid = utm; type = region_utm }
  pub no_more : (i : ℕ) → 2 ≤ i → i < enclave_regions_max → (e.regions i).type ≡ region_none

-- A running enclave cannot be destroyed, nor can one that does not exist; one whose destruction
-- or creation is under way passes the test.
pub is_destroyable_lem :
    (m : Machine) (eid : ℕ)
    → (is_destroyable m eid ≡ true
        → (eid < encl_max)
          × ((m.enclaves eid).state ≢ invalid)
          × ((m.enclaves eid).state ≢ running))
      × (eid < encl_max
          → (m.enclaves eid).state ≢ invalid
          → (m.enclaves eid).state ≢ running
          → is_destroyable m eid ≡ true)
unfolding is_destroyable enclave_exists
is_destroyable_lem m eid = (λ h. ground arith, λ l n r. ground arith)

-- What is left of enclave `eid`, with the regions `epm` and `utm`.
pub record Destroyed (m : Machine) (eid epm utm : ℕ) (m' : Machine) : Type 0 where
  pub state_is : (m'.enclaves eid).state ≡ invalid
  pub threads_are : (m'.enclaves eid).n_thread ≡ 0
  pub others_are : (j : ℕ) → eid ≢ j → m'.enclaves j ≡ m.enclaves j
  pub cpus_are : m'.cpus ≡ m.cpus
  pub pmp_is : m'.pmp ≡ (pmp_region_free (pmp_region_free m.pmp epm).1 utm).1
  pub mem_is :
      (a : ℕ)
      → m'.mem a ≡ (
          if leb (pmp_region_get_addr m.pmp epm) a
            && ltb a (pmp_region_get_addr m.pmp epm + pmp_region_get_size m.pmp epm)
          then 0
          else m.mem a)

-- Giving the enclave another state first makes no difference to what is left.
of_with_state :
    (m : Machine) (eid epm utm : ℕ) (t : EnclaveState) (m' : Machine)
    → Destroyed (with_state m eid t) eid epm utm m'
    → Destroyed m eid epm utm m'
of_with_state m eid epm utm t m' d = record {
  state_is = d.state_is;
  threads_are = d.threads_are;
  others_are =
      λ j n. let other : (eid == j) ≡ false = ground arith in d.others_are j n ∙ rw other refl;
  cpus_are = d.cpus_are;
  pmp_is = d.pmp_is;
  mem_is = d.mem_is;
}

with_state-Shaped :
    (m : Machine) (eid epm utm : ℕ) (t : EnclaveState)
    → Shaped (m.enclaves eid) epm utm
    → Shaped ((with_state m eid t).enclaves eid) epm utm
with_state-Shaped m eid epm utm t s =
    let self : (eid == eid) ≡ true = (==_iff eid eid).1 refl in
    rw self (record { epm_is = s.epm_is; utm_is = s.utm_is; no_more = s.no_more })

module _ (sbi : OpenSbi) where
  wipe_region-mem :
      (m : Machine) (rid a : ℕ)
      → (wipe_region sbi m rid).mem a ≡ (
          if leb (pmp_region_get_addr m.pmp rid) a
            && ltb a (pmp_region_get_addr m.pmp rid + pmp_region_get_size m.pmp rid)
          then 0
          else m.mem a)
  unfolding wipe_region
  wipe_region-mem m rid a =
      ap (λ (f : ℕ → ℕ). f a) (pmp_unset_global-SameButRegs sbi _ rid).mem_is
      ∙ sbi.memset_lem m.mem (pmp_region_get_addr m.pmp rid) 0 (pmp_region_get_size m.pmp rid) a

  pub wipe_region-enclaves :
      (m : Machine) (rid : ℕ)
      → ((wipe_region sbi m rid).enclaves ≡ m.enclaves)
        × ((wipe_region sbi m rid).cpus ≡ m.cpus)
        × ((wipe_region sbi m rid).pmp ≡ (pmp_region_free m.pmp rid).1)
  unfolding wipe_region
  wipe_region-enclaves m rid =
      let same = pmp_unset_global-SameButRegs sbi _ rid in
      (same.enclaves_are, same.cpus_are, ap (λ (p : Pmp). (pmp_region_free p rid).1) same.pmp_is)

  wipe_loop_skips :
      (rounds i eid : ℕ) (m : Machine)
      → ((j : ℕ) → i ≤ j → j < i + rounds → ((m.enclaves eid).regions j).type ≡ region_none)
      → wipe_loop sbi rounds i eid m ≡ m
  unfolding wipe_loop
  wipe_loop_skips zero i eid m none_left = refl
  wipe_loop_skips (suc rounds) i eid m none_left =
      rw (none_left i (omega arith) (omega arith))
        (wipe_loop_skips rounds (i + 1) eid m (λ j l u. none_left j (omega arith) (omega arith)))

  wipe_epm :
      (n i eid : ℕ) (m : Machine) (epm : ℕ)
      → (m.enclaves eid).regions i ≡ record { pmp_rid = epm; type = region_epm }
      → wipe_loop sbi (suc n) i eid m ≡ wipe_loop sbi n (i + 1) eid (wipe_region sbi m epm)
  unfolding wipe_loop
  wipe_epm n i eid m epm e = rw e refl

  wipe_utm :
      (n i eid : ℕ) (m : Machine) (utm : ℕ)
      → (m.enclaves eid).regions i ≡ record { pmp_rid = utm; type = region_utm }
      → wipe_loop sbi (suc n) i eid m ≡ wipe_loop sbi n (i + 1) eid m
  unfolding wipe_loop
  wipe_utm n i eid m utm e = rw e refl

  wipe_loop-Shaped :
      (m : Machine) (eid epm utm : ℕ)
      → Shaped (m.enclaves eid) epm utm
      → wipe_loop sbi enclave_regions_max 0 eid m ≡ wipe_region sbi m epm
  wipe_loop-Shaped m eid epm utm s = first ∙ wipe_loop_skips 6 2 eid (wipe_region sbi m epm) rest
    where
      kept : (wipe_region sbi m epm).enclaves ≡ m.enclaves
      kept = (wipe_region-enclaves m epm).0

      rest :
          (j : ℕ)
          → 2 ≤ j
          → j < 2 + 6
          → (((wipe_region sbi m epm).enclaves eid).regions j).type ≡ region_none
      rest j l u = rw kept (s.no_more j l u)

      first :
          wipe_loop sbi enclave_regions_max 0 eid m ≡ wipe_loop sbi 6 2 eid (wipe_region sbi m epm)
      first =
          wipe_epm 7 0 eid m epm s.epm_is
          ∙ wipe_utm 6 1 eid (wipe_region sbi m epm) utm
              (ap (λ (f : ℕ → Enclave). (f eid).regions 1) kept ∙ s.utm_is)

  utm_index :
      (m : Machine) (eid epm utm : ℕ)
      → Shaped (m.enclaves eid) epm utm
      → get_enclave_region_index m eid region_utm ≡ some 1
  unfolding get_enclave_region_index region_index_loop
  utm_index m eid epm utm s =
      let one : type_eq ((m.enclaves eid).regions 0).type region_utm ≡ false = rw s.epm_is refl in
      let two : type_eq ((m.enclaves eid).regions 1).type region_utm ≡ true = rw s.utm_is refl in
      rw (one, two) refl

  free_utm-Shaped :
      (m : Machine) (eid epm utm : ℕ)
      → Shaped (m.enclaves eid) epm utm
      → free_utm sbi m eid ≡ free_pmp m utm
  unfolding free_utm
  free_utm-Shaped m eid epm utm s =
      ap
        (λ (o : Option ℕ). elim o [
          | none ↦ m
          | some i ↦ free_pmp m ((m.enclaves eid).regions i).pmp_rid
        ])
        (utm_index m eid epm utm s)
      ∙ ap (λ (r : EnclaveRegion). free_pmp m r.pmp_rid) s.utm_is

  destroy_rest-Destroyed :
      (m : Machine) (eid epm utm : ℕ)
      → Shaped (m.enclaves eid) epm utm
      → Destroyed m eid epm utm (destroy_rest sbi m eid)
  unfolding destroy_rest reset_enclave encl_free_eid
  destroy_rest-Destroyed m eid epm utm s =
      let (same, cpus, freed) = wipe_region-enclaves m epm in
      let shaped : Shaped ((wipe_region sbi m epm).enclaves eid) epm utm =
        subst (λ (f : ℕ → Enclave). Shaped (f eid) epm utm) (sym same) s in
      let one = wipe_loop-Shaped m eid epm utm s in
      let two = free_utm-Shaped (wipe_region sbi m epm) eid epm utm shaped in
      let self : (eid == eid) ≡ true = (==_iff eid eid).1 refl in
      rw (one, two)
        (record {
          state_is = rw self refl;
          threads_are = rw self refl;
          others_are = λ j n.
              let other : (eid == j) ≡ false = ground arith in
              rw other (ap (λ (f : ℕ → Enclave). f j) same);
          cpus_are = cpus;
          pmp_is = ap (λ (p : Pmp). (pmp_region_free p utm).1) freed;
          mem_is = λ a. wipe_region-mem m epm a;
        })

  -- `destroy_enclave`, on an enclave with a private and a shared region. If the enclave may be
  -- destroyed, every byte of the private region is 0 and no other byte has changed, both regions
  -- are released, and the id is free; other enclaves are as they were. If not, nothing changes.
  pub destroy_enclave_lem :
      (m : Machine) (eid epm utm : ℕ)
      → Shaped (m.enclaves eid) epm utm
      → (if is_destroyable m eid
          then ((destroy_enclave sbi m eid).0 ≡ success)
            × Destroyed m eid epm utm (destroy_enclave sbi m eid).1
          else destroy_enclave sbi m eid ≡ (not_destroyable, m))
  unfolding destroy_enclave destroy_begin
  destroy_enclave_lem m eid epm utm s = elim (Bool-cases (is_destroyable m eid)) [
    | inr n ↦ rw (n, destroy_enclave) refl
    | inl y ↦
        let m1 = with_state m eid destroying in
        let done =
          destroy_rest-Destroyed m1 eid epm utm (with_state-Shaped m eid epm utm destroying s) in
        rw (y, destroy_enclave) (refl, of_with_state m eid epm utm destroying _ done)
  ]
