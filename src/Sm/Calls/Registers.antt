-- ===== src/Sm/Calls/Registers.antt =====
-- The PMP registers that regions name, over calls of sm/src/pmp.c, and what `destroy_enclave` (sm/src/enclave.c) does for any table of regions.
use keystone_workspace.Base.{
  ℕ, zero, suc, ◌+◌, ◌≡◌, ◌∙◌, refl, sym, ap, subst, Bool, ◌||◌, ◌==◌, arith, update, update_self,
  fun_ext, Option, some, none, Bool-cases, inl, inr,
}
use keystone_workspace.Base.Outcome.{ret-injective, Returns-result}
use keystone_workspace.Pmp.State.{Pmp, region_clear_all}
use keystone_workspace.Pmp.Init.{InitResult, pmp_region_free}
use keystone_workspace.Pmp.Init.Total.{Added, pmp_region_init-total}
use keystone_workspace.Pmp.Isolation.{Reach, here, next, Step, init, free}
use keystone_workspace.Sm.State.{
  Enclave, Machine, OpenSbi, invalid, region_none, region_utm, type_eq, enclave_regions_max,
}
use keystone_workspace.Sm.Enclave.{clear_regions, encl_free_eid, get_enclave_region_index}
use keystone_workspace.Sm.Create.{free_pmp}
use keystone_workspace.Sm.Destroy.{
  wipe_region, wipe_loop, free_utm, reset_enclave, destroy_rest, zero_params,
}
use keystone_workspace.Sm.Destroy.Wipe.{wipe_region-enclaves}
use keystone_workspace.Sm.Run.Life.{RegsLow}

pub RegsLow-free : (p : Pmp) (k : ℕ) → RegsLow p → RegsLow (pmp_region_free p k).1
unfolding pmp_region_free region_clear_all
RegsLow-free p k low = λ i. let h = low i in ground arith

RegsLow-Added :
    {p : Pmp} {start size : ℕ} {ov : Bool} {r : InitResult}
    → Added p start size ov r
    → RegsLow p
    → RegsLow r.pmp
RegsLow-Added a low = λ i. let h = low i in let l = a.reg_low in rw a.regions_are (ground arith)

RegsLow-Step : {p q : Pmp} → Step p q → RegsLow p → RegsLow q
RegsLow-Step {p} (init start size priority ov r c e) low =
    let (s, f, (spec, _)) = Returns-result (pmp_region_init-total p start size ov priority c) in
    let same : s ≡ r = ret-injective (sym f ∙ e) in
    let made : RegsLow s.pmp = elim spec [
      | inl (n, unchanged) ↦ rw unchanged low
      | inr (z, added) ↦ RegsLow-Added added low
    ] in
    subst (λ (t : InitResult). RegsLow t.pmp) same made
RegsLow-Step {p} (free k l) low = RegsLow-free p k low

pub RegsLow-Reach : {p q : Pmp} → Reach p q → RegsLow p → RegsLow q
RegsLow-Reach here low = low
RegsLow-Reach (next r s) low = RegsLow-Step s (RegsLow-Reach r low)

pub update_twice {ℓ} :
    {A : Type ℓ} (f : ℕ → A) (i : ℕ) (v w : A) → update (update f i v) i w ≡ update f i w
update_twice f i v w =
    fun_ext λ j. elim (Bool-cases (i == j)) [ inl q ↦ rw q refl | inr q ↦ rw q refl ]

-- The enclaves and the harts are as before, and each region names a register.
pub record Wiped (m m' : Machine) : Type 0 where
  pub enclaves_are : m'.enclaves ≡ m.enclaves
  pub cpus_are : m'.cpus ≡ m.cpus
  pub low : RegsLow m'.pmp

module _ (sbi : OpenSbi) where
  wipe_loop-Wiped :
      (rounds i eid : ℕ) (m : Machine) → RegsLow m.pmp → Wiped m (wipe_loop sbi rounds i eid m)
  unfolding wipe_loop
  wipe_loop-Wiped zero i eid m low = record { enclaves_are = refl; cpus_are = refl; low = low }
  wipe_loop-Wiped (suc rounds) i eid m low =
      let r = (m.enclaves eid).regions i in
      elim (Bool-cases (type_eq r.type region_none || type_eq r.type region_utm)) [
        | inl t ↦ rw t (wipe_loop-Wiped rounds (i + 1) eid m low)
        | inr t ↦
            let (same, cpus, freed) = wipe_region-enclaves sbi m r.pmp_rid in
            let rest =
              wipe_loop-Wiped rounds (i + 1) eid (wipe_region sbi m r.pmp_rid)
                (subst RegsLow (sym freed) (RegsLow-free m.pmp r.pmp_rid low)) in
            rw t (record {
              enclaves_are = rest.enclaves_are ∙ same;
              cpus_are = rest.cpus_are ∙ cpus;
              low = rest.low;
            })
      ]

  free_utm-Wiped : (m : Machine) (eid : ℕ) → RegsLow m.pmp → Wiped m (free_utm sbi m eid)
  unfolding free_utm
  free_utm-Wiped m eid low = go (get_enclave_region_index m eid region_utm)
    where
      go :
          (o : Option ℕ)
          → Wiped m (elim o [ none ↦ m | some i ↦ free_pmp m ((m.enclaves eid).regions i).pmp_rid ])
      go none = record { enclaves_are = refl; cpus_are = refl; low = low }
      go (some i) = record { enclaves_are = refl; cpus_are = refl; low = RegsLow-free m.pmp _ low }

  -- Enclave `eid` is invalid and has no thread; other enclaves and the harts are as before.
  pub destroy_rest-lem :
      (m : Machine) (eid : ℕ)
      → RegsLow m.pmp
      → let m' = destroy_rest sbi m eid in
        ((e : Enclave) × (m'.enclaves ≡ update m.enclaves eid e)
          × (e.state ≡ invalid)
          × (e.n_thread ≡ 0))
        × (m'.cpus ≡ m.cpus)
        × RegsLow m'.pmp
  unfolding destroy_rest reset_enclave encl_free_eid
  destroy_rest-lem m eid low =
      let one = wipe_loop-Wiped enclave_regions_max 0 eid m low in
      let two = free_utm-Wiped (wipe_loop sbi enclave_regions_max 0 eid m) eid one.low in
      let all = two.enclaves_are ∙ one.enclaves_are in
      let w = free_utm sbi (wipe_loop sbi enclave_regions_max 0 eid m) eid in
      let v : Enclave = record (w.enclaves eid) {
        encl_satp = 0;
        n_thread = 0;
        params = zero_params;
        regions = clear_regions enclave_regions_max 0 (w.enclaves eid).regions;
      } in
      let e : Enclave = record (update w.enclaves eid v eid) { state = invalid } in
      (
        (
          e,
          update_twice w.enclaves eid v e ∙ ap (λ (f : ℕ → Enclave). update f eid e) all,
          refl,
          ap (λ (y : Enclave). y.n_thread) (update_self w.enclaves eid v),
        ),
        two.cpus_are ∙ one.cpus_are,
        two.low,
      )
