-- ===== src/Sm/Create/Isolation.antt =====
-- The PMP regions after `create_enclave` (sm/src/enclave.c).
use keystone_workspace.Base.{
  ℕ, ◌≡◌, ◌≢◌, refl, sym, subst, ==_iff, true, false, not, ◌==◌, if◌then◌else◌, arith, Option, some,
  ◌⊎◌, ◌∙◌, ap, none, Bool-cases, inl, inr,
}
use keystone_workspace.Base.Outcome.{
  ret, ret-injective, Returns-result, Returns, returns, Returns-bind, Returns-self, Returns-map,
}
use keystone_workspace.Pmp.State.{any, bottom, Region, is_pmp_region_valid}
use keystone_workspace.Pmp.Init.{InitResult, pmp_region_free}
use keystone_workspace.Pmp.Init.Total.{Added, InitSpec, pmp_region_init-total}
use keystone_workspace.Pmp.Isolation.{
  Private, Apart, Reach, here, next, init, free, Isolated, Isolated-Reach,
}
use keystone_workspace.Sm.Codes.{success, no_free_resource, pmp_failure}
use keystone_workspace.Sm.State.{allocated, CreateArgs, Hart, Machine, OpenSbi}
use keystone_workspace.Sm.Measure.{Crypto}
use keystone_workspace.Sm.Enclave.{is_create_args_valid, encl_alloc_eid, encl_free_eid, with_state}
use keystone_workspace.Sm.Enclave.Valid.{Allocates, encl_alloc_eid_lem}
use keystone_workspace.Sm.Create.{
  CreateResult, create_failed, create_with_regions, create_with_eid, create_enclave, free_region,
  rid_or_zero,
}
use keystone_workspace.Sm.Create.Opened.{create_with_regions-Opened}
use keystone_workspace.Sm.Create.Effect.{first_new, NewRegion, Created}
use keystone_workspace.Sm.Create.Cases.{create_enclave_lem}

encl_free_eid-pmp : (m : Machine) (eid : ℕ) → (encl_free_eid m eid).pmp ≡ m.pmp
unfolding encl_free_eid
encl_free_eid-pmp m eid = refl

free_region-pmp :
    (m : Machine) (eid region : ℕ)
    → (free_region m eid region).pmp ≡ (pmp_region_free m.pmp region).1
unfolding free_region encl_free_eid
free_region-pmp m eid region = refl

not_zero : {n : ℕ} → n ≢ 0 → (n == 0) ≡ false
not_zero h = ground arith

module _ (sbi : OpenSbi) (c : Crypto) (h : Hart) (a : CreateArgs) where
  abbrev pub Made : Machine → CreateResult → Type 0
  Made m r = Reach m.pmp r.machine.pmp

  with_both-Reach :
      (m : Machine) (eid : ℕ) {r1 : InitResult}
      (e : Added m.pmp a.epm_region.paddr a.epm_region.size false r1)
      → Reach m.pmp r1.pmp
      → {r2 : InitResult} → Reach m.pmp r2.pmp
      → InitSpec r1.pmp a.utm_region.paddr a.utm_region.size false r2
      → Returns (Made m) (
          let m2 = record m { pmp = r2.pmp } in
          if not (r2.code == 0)
          then ret (create_failed pmp_failure (free_region m2 eid (rid_or_zero r1.rid)))
          else ret (create_with_regions sbi c h a m2 eid (rid_or_zero r1.rid) (rid_or_zero r2.rid)))
  with_both-Reach m eid e one {r2} two (inl (n, same)) =
      let bad = not_zero n in
      rw (bad, e.rid_is)
        (returns (
          subst (Reach m.pmp) (sym (free_region-pmp (record m { pmp = r2.pmp }) eid e.idx))
            (next two (free e.idx e.low))))
  with_both-Reach m eid e one {r2} two (inr (z, u)) =
      let good : (r2.code == 0) ≡ true = (==_iff r2.code 0).1 z in
      let (_, _, opened) =
        create_with_regions-Opened sbi c h a (record m { pmp = r2.pmp }) eid e.idx u.idx
          (first_new e u).is_valid in
      rw (good, e.rid_is, u.rid_is) (returns (subst (Reach m.pmp) (sym opened.pmp_is) two))

  create_with_eid-Reach :
      (m : Machine) (eid : ℕ) → Returns (Made m) (create_with_eid sbi c h a m eid)
  unfolding create_with_eid
  create_with_eid-Reach m eid =
      Returns-bind
        (Returns-self
          (pmp_region_init-total m.pmp a.epm_region.paddr a.epm_region.size false any (inl refl)))
        λ epm (run, (first, _)).
          let one =
            next here (init a.epm_region.paddr a.epm_region.size any false epm (inl refl) run) in
          elim first [
            | inl (n, same) ↦
                let bad = not_zero n in
                rw bad (
                  returns (
                    subst (Reach m.pmp) (sym (encl_free_eid-pmp (record m { pmp = epm.pmp }) eid))
                      one))
            | inr (z, e) ↦
                let good : (epm.code == 0) ≡ true = (==_iff epm.code 0).1 z in
                rw good (
                  Returns-bind
                    (Returns-self (
                      pmp_region_init-total epm.pmp a.utm_region.paddr a.utm_region.size false
                        bottom (inl refl)))
                    λ utm (run2, (second, _)).
                      with_both-Reach m eid e one
                        (next one (
                          init a.utm_region.paddr a.utm_region.size bottom false utm (inl refl)
                            run2))
                        second)
          ]

  with_id-Reach :
      (m : Machine) (o : Option (ℕ × Machine))
      → Allocates m o
      → Returns (Made m) (elim o [
        | none ↦ ret (create_failed no_free_resource m)
        | some (eid, m1) ↦ create_with_eid sbi c h a m1 eid
      ])
  with_id-Reach m none all = returns here
  with_id-Reach m (some (eid, m1)) (_, _, same) =
      rw same (create_with_eid-Reach (with_state m eid allocated) eid)

  pub create_enclave-Reach : (m : Machine) → Returns (Made m) (create_enclave sbi c h a m)
  unfolding create_enclave
  create_enclave-Reach m = elim (Bool-cases (is_create_args_valid a)) [
    | inl v ↦ rw v (with_id-Reach m (encl_alloc_eid m) (encl_alloc_eid_lem m))
    | inr n ↦ rw n (returns here)
  ]

  create_enclave-Isolated :
      (m : Machine)
      → Isolated m.pmp
      → Returns (λ r. Isolated r.machine.pmp) (create_enclave sbi c h a m)
  create_enclave-Isolated m v = Returns-map (λ r q. Isolated-Reach v q) (create_enclave-Reach m)

-- The regions of a new enclave: valid, with the ranges of the arguments, and apart from the private
-- regions of `m` and from each other.
pub record Secluded (a : CreateArgs) (m m' : Machine) (eid : ℕ) : Type 0 where
  pub epm_valid : is_pmp_region_valid m'.pmp ((m'.enclaves eid).regions 0).pmp_rid ≡ true
  pub utm_valid : is_pmp_region_valid m'.pmp ((m'.enclaves eid).regions 1).pmp_rid ≡ true
  pub epm_addr : (m'.pmp.regions ((m'.enclaves eid).regions 0).pmp_rid).addr ≡ a.epm_region.paddr
  pub epm_size : (m'.pmp.regions ((m'.enclaves eid).regions 0).pmp_rid).size ≡ a.epm_region.size
  pub utm_addr : (m'.pmp.regions ((m'.enclaves eid).regions 1).pmp_rid).addr ≡ a.utm_region.paddr
  pub utm_size : (m'.pmp.regions ((m'.enclaves eid).regions 1).pmp_rid).size ≡ a.utm_region.size
  pub each_other : Apart a.epm_region.paddr a.epm_region.size a.utm_region.paddr a.utm_region.size
  pub epm_apart :
      (i : ℕ)
      → Private m.pmp i
      → Apart a.epm_region.paddr a.epm_region.size (m.pmp.regions i).addr (m.pmp.regions i).size
  pub utm_apart :
      (i : ℕ)
      → Private m.pmp i
      → Apart a.utm_region.paddr a.utm_region.size (m.pmp.regions i).addr (m.pmp.regions i).size

module _ {c : Crypto} {a : CreateArgs} {m m' : Machine} {eid : ℕ} (made : Created c a m eid m')
    (v : Isolated m'.pmp) where
  -- A new region and a private one that there was before
  new-Apart :
      (j addr size i : ℕ)
      → NewRegion m.pmp m'.pmp j addr size
      → Private m.pmp i
      → Apart addr size (m.pmp.regions i).addr (m.pmp.regions i).size
  new-Apart j addr size i new q =
      let old : (k : ℕ) → is_pmp_region_valid m.pmp k ≡ false → k ≢ i = λ k was e.
        let was' : is_pmp_region_valid m.pmp i ≡ false = rw e at was in let yet = q.1 in cc in
      let (same, valid) =
        made.kept i q.0 (old made.epm made.epm_new.was_free) (old made.utm made.utm_new.was_free) in
      let q' : Private m'.pmp i =
        (q.0, valid ∙ q.1, ap (λ (r : Region). r.allow_overlap) same ∙ q.2) in
      let apart = v.apart j i (old j new.was_free) (new.low, new.is_valid, new.private_is) q' in
      rw (new.addr_is, new.size_is, same) at apart

  created-Secluded : Secluded a m m' eid
  created-Secluded = record {
    epm_valid = rw made.epm_entry made.epm_new.is_valid;
    utm_valid = rw made.utm_entry made.utm_new.is_valid;
    epm_addr = rw made.epm_entry made.epm_new.addr_is;
    epm_size = rw made.epm_entry made.epm_new.size_is;
    utm_addr = rw made.utm_entry made.utm_new.addr_is;
    utm_size = rw made.utm_entry made.utm_new.size_is;
    each_other =
        let e = made.epm_new in
        let u = made.utm_new in
        let apart =
          v.apart made.epm made.utm made.distinct (e.low, e.is_valid, e.private_is)
            (u.low, u.is_valid, u.private_is) in
        rw (e.addr_is, e.size_is, u.addr_is, u.size_is) at apart;
    epm_apart = λ i q. new-Apart made.epm _ _ i made.epm_new q;
    utm_apart = λ i q. new-Apart made.utm _ _ i made.utm_new q;
  }

module _ (sbi : OpenSbi) (c : Crypto) (h : Hart) (a : CreateArgs) where
  abbrev pub Apartness : Machine → CreateResult → Type 0
  Apartness m r =
      Isolated r.machine.pmp
      × (((r.code ≢ success) × (r.eid ≡ none))
          ⊎ ((r.code ≡ success) × ((eid : ℕ) × (r.eid ≡ some eid) × Secluded a m r.machine eid)))

  -- create_enclave returns, on regions of which the private ones are apart and end below 2^64, and
  -- they stay so. Either it fails and gives no id; or the private region of the new enclave, which
  -- is the range of the arguments, and its shared region are valid, and have no address in common
  -- with each other or with a private region that there was before.
  pub create_enclave-Secluded :
      (m : Machine) → Isolated m.pmp → Returns (Apartness m) (create_enclave sbi c h a m)
  create_enclave-Secluded m v =
      let (r, run, spec) = Returns-result (create_enclave_lem sbi c h a m) in
      let (r', run', apart) = Returns-result (create_enclave-Isolated sbi c h a m v) in
      let same : r' ≡ r = ret-injective (sym run' ∙ run) in
      let apart' : Isolated r.machine.pmp = rw same at apart in
      rw run (
        returns (
          apart',
          elim spec [
            | inl (bad, id, _) ↦ inl (bad, id)
            | inr (ok, _, (eid, id, made)) ↦ inr (ok, (eid, id, created-Secluded made apart'))
          ],
        ))
