-- ===== src/Sm/Create/Cases.antt =====
-- `create_enclave` on every branch (sm/src/enclave.c).
use native.Mathlib.Decide.{ℕ_discrete}
use keystone_workspace.Base.{
  ℕ, ◌<◌, ◌≡◌, ◌≢◌, ◌⊎◌, ◌∙◌, refl, sym, ap, subst, ==_iff, true, false, not, ◌==◌, if◌then◌else◌,
  arith, Option, some, none, Bool-cases, inl, inr,
}
use keystone_workspace.Base.Outcome.{ret, Returns, returns, Returns-bind}
use keystone_workspace.Pmp.State.{Pmp, any, bottom, pmp_max_n_region, is_pmp_region_valid}
use keystone_workspace.Pmp.Init.{InitResult, pmp_region_free}
use keystone_workspace.Pmp.Init.Total.{Added, pmp_region_init-total}
use keystone_workspace.Pmp.Init.Entries.{Added-valid, Added-other, free-valid, free-other}
use keystone_workspace.Sm.Codes.{no_free_resource, pmp_failure}
use keystone_workspace.Sm.State.{
  EnclaveState, encl_max, invalid, allocated, Enclave, CreateArgs, Hart, Machine, OpenSbi,
}
use keystone_workspace.Sm.Measure.{Crypto}
use keystone_workspace.Sm.Enclave.{is_create_args_valid, encl_alloc_eid, encl_free_eid, with_state}
use keystone_workspace.Sm.Enclave.Valid.{encl_alloc_eid_lem, Allocates}
use keystone_workspace.Sm.Create.{
  init_enclave, create_failed, create_with_regions, create_with_eid, create_enclave, free_region,
  rid_or_zero,
}
use keystone_workspace.Sm.Create.Opened.{Opened, create_with_regions-Opened}
use keystone_workspace.Sm.Create.Effect.{
  Refunded, Created, CreateSpec, Refunded-refl, distinct_idx, first_new, second_new, two_kept,
}

-- The id is released, with the valid regions as they were.
module _ (m : Machine) (eid : ℕ) (was : (m.enclaves eid).state ≡ invalid) where
  released-Refunded :
      (p : Pmp)
      → ((i : ℕ) → i < pmp_max_n_region → is_pmp_region_valid p i ≡ is_pmp_region_valid m.pmp i)
      → ((i : ℕ)
          → i < pmp_max_n_region
          → is_pmp_region_valid m.pmp i ≡ true
          → p.regions i ≡ m.pmp.regions i)
      → Refunded m (encl_free_eid (record (with_state m eid allocated) { pmp = p }) eid)
  unfolding encl_free_eid
  released-Refunded p v r = record {
    enclaves_are = λ j. elim (Bool-cases (eid == j)) [
      | inl q ↦
          let same : eid ≡ j = (==_iff eid j).0 q in
          let self : (eid == eid) ≡ true = (==_iff eid eid).1 refl in
          rw (q, self)
            (ap (λ (s : EnclaveState). record (m.enclaves eid) { state = s }) (sym was)
              ∙ ap m.enclaves same)
      | inr q ↦ rw q refl
    ];
    cpus_are = refl;
    mem_is = refl;
    valid_are = v;
    regions_are = r;
  }

  -- The first of two regions is released again.
  free_region-Refunded :
      {start size : ℕ} {r : InitResult} (e : Added m.pmp start size false r)
      → Refunded m (free_region (record (with_state m eid allocated) { pmp = r.pmp }) eid e.idx)
  unfolding free_region
  free_region-Refunded {r = r} e =
      released-Refunded (pmp_region_free r.pmp e.idx).1
        (λ i l.
          let one = free-valid r.pmp e.idx e.low i l in
          let two = Added-valid e i l in
          elim (ℕ_discrete e.idx i) [
            | yes q ↦ let g = taken i q in ground arith
            | no q ↦ ground arith
          ])
        (λ i l v.
          let n : e.idx ≢ i = λ q. let g = taken i q in cc in
          free-other r.pmp e.idx e.low i n ∙ Added-other e i n)
    where
      taken : (i : ℕ) → e.idx ≡ i → is_pmp_region_valid m.pmp i ≡ false
      taken i q = subst (λ (k : ℕ). is_pmp_region_valid m.pmp k ≡ false) q e.was_free

not_zero : {n : ℕ} → n ≢ 0 → (n == 0) ≡ false
not_zero h = ground arith

module _ (sbi : OpenSbi) (c : Crypto) (h : Hart) (a : CreateArgs) where
  Opened-Created :
      (m : Machine) (eid : ℕ) {r1 r2 : InitResult}
      (e : Added m.pmp a.epm_region.paddr a.epm_region.size false r1)
      (u : Added r1.pmp a.utm_region.paddr a.utm_region.size false r2) (m' : Machine)
      → eid < encl_max
      → (m.enclaves eid).state ≡ invalid
      → Opened c h a (record (with_state m eid allocated) { pmp = r2.pmp }) eid e.idx u.idx m'
      → Created c a m eid m'
  unfolding init_enclave
  Opened-Created m eid e u m' l was o = record {
    epm = e.idx;
    utm = u.idx;
    eid_low = l;
    was_invalid = was;
    state_is = ap (λ (x : Enclave). x.state) o.enclave_is;
    threads_are = ap (λ (x : Enclave). x.n_thread) o.enclave_is;
    epm_entry = ap (λ (x : Enclave). x.regions 0) o.enclave_is;
    utm_entry = ap (λ (x : Enclave). x.regions 1) o.enclave_is;
    rest_are = λ i k.
        let not_first : (0 == i) ≡ false = ground arith in
        let not_second : (1 == i) ≡ false = ground arith in
        let self : (eid == eid) ≡ true = (==_iff eid eid).1 refl in
        ap (λ (x : Enclave). x.regions i) o.enclave_is ∙ rw (not_second, not_first, self) refl;
    params_are = ap (λ (x : Enclave). x.params) o.enclave_is;
    hash_is = ap (λ (x : Enclave). x.hash) o.enclave_is;
    others_are =
        λ j n. let other : (eid == j) ≡ false = ground arith in o.others_are j n ∙ rw other refl;
    cpus_are = o.cpus_are;
    epm_new = rw o.pmp_is (first_new e u);
    utm_new = rw o.pmp_is (second_new e u);
    distinct = distinct_idx e u;
    kept = λ i k n q. rw o.pmp_is (two_kept e u i k n q);
    mem_is = o.mem_is;
  }

  allocated-Refunded :
      (m : Machine) (eid : ℕ)
      → (m.enclaves eid).state ≡ invalid
      → Refunded m (encl_free_eid (with_state m eid allocated) eid)
  allocated-Refunded m eid was = released-Refunded m eid was m.pmp (λ i l. refl) (λ i l v. refl)

  with_both :
      (m : Machine) (eid : ℕ)
      → eid < encl_max
      → (m.enclaves eid).state ≡ invalid
      → is_create_args_valid a ≡ true
      → {r1 : InitResult} (e : Added m.pmp a.epm_region.paddr a.epm_region.size false r1)
      → {r2 : InitResult}
      → ((r2.code ≢ 0) × (r2.pmp ≡ r1.pmp))
        ⊎ ((r2.code ≡ 0) × Added r1.pmp a.utm_region.paddr a.utm_region.size false r2)
      → Returns (CreateSpec c a m) (
          let m2 = record (with_state m eid allocated) { pmp = r2.pmp } in
          if not (r2.code == 0)
          then ret (create_failed pmp_failure (free_region m2 eid (rid_or_zero r1.rid)))
          else ret (create_with_regions sbi c h a m2 eid (rid_or_zero r1.rid) (rid_or_zero r2.rid)))
  with_both m eid l was v e (inl (n, same)) =
      let bad = not_zero n in
      rw (bad, e.rid_is, same) (returns (inl (λ q. cc, refl, free_region-Refunded m eid was e)))
  with_both m eid l was v {r1} e {r2} (inr (z, u)) =
      let good : (r2.code == 0) ≡ true = (==_iff r2.code 0).1 z in
      let m2 = record (with_state m eid allocated) { pmp = r2.pmp } in
      let (ok, id, opened) =
        create_with_regions-Opened sbi c h a m2 eid e.idx u.idx (first_new e u).is_valid in
      rw (good, e.rid_is, u.rid_is)
        (returns (inr (ok, v, (eid, id, Opened-Created m eid e u _ l was opened))))

  create_with_eid-CreateSpec :
      (m : Machine) (eid : ℕ)
      → eid < encl_max
      → (m.enclaves eid).state ≡ invalid
      → is_create_args_valid a ≡ true
      → Returns (CreateSpec c a m) (create_with_eid sbi c h a (with_state m eid allocated) eid)
  unfolding create_with_eid
  create_with_eid-CreateSpec m eid l was v =
      Returns-bind
        (pmp_region_init-total m.pmp a.epm_region.paddr a.epm_region.size false any (inl refl))
        λ epm (first, _). elim first [
          | inl (n, same) ↦
              let bad = not_zero n in
              rw (bad, same) (returns (inl (λ q. cc, refl, allocated-Refunded m eid was)))
          | inr (z, e) ↦
              let good : (epm.code == 0) ≡ true = (==_iff epm.code 0).1 z in
              rw good (
                Returns-bind
                  (pmp_region_init-total epm.pmp a.utm_region.paddr a.utm_region.size false bottom
                    (inl refl))
                  λ utm (second, _). with_both m eid l was v e second)
        ]

  with_id :
      (m : Machine) (o : Option (ℕ × Machine))
      → Allocates m o
      → is_create_args_valid a ≡ true
      → Returns (CreateSpec c a m) (elim o [
        | none ↦ ret (create_failed no_free_resource m)
        | some (eid, m1) ↦ create_with_eid sbi c h a m1 eid
      ])
  with_id m none all v = returns (inl (λ q. cc, refl, Refunded-refl m))
  with_id m (some (eid, m1)) (l, was, same) v = rw same (create_with_eid-CreateSpec m eid l was v)

  -- `create_enclave` returns. Either it gives an error code and no id, every enclave and
  -- every valid region is as it was and no region is new; or the arguments are valid, and
  -- an id that was free is a fresh enclave that has a new private and a new shared region, its
  -- measurement and its parameters, no other enclave or region has changed, and in the memory
  -- only the shared region is cleared.
  pub create_enclave_lem : (m : Machine) → Returns (CreateSpec c a m) (create_enclave sbi c h a m)
  unfolding create_enclave
  create_enclave_lem m = elim (Bool-cases (is_create_args_valid a)) [
    | inl v ↦ rw v (with_id m (encl_alloc_eid m) (encl_alloc_eid_lem m) v)
    | inr n ↦ rw n (returns (inl (λ q. cc, refl, Refunded-refl m)))
  ]
