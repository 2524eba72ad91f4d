-- ===== src/Sm/Create/Effect.antt =====
-- What a call of `create_enclave` (sm/src/enclave.c) does to the machine, and two allocations of
-- PMP regions one after the other.
use keystone_workspace.Base.{
  ℕ, ◌+◌, ◌<◌, ◌≤◌, ◌≡◌, ◌≢◌, ◌⊎◌, ◌∙◌, refl, sym, ap, true, false, ◌&&◌, ltb, leb, ◌==◌,
  if◌then◌else◌, arith, some, none,
}
use keystone_workspace.Pmp.State.{Pmp, Region, pmp_max_n_region, is_pmp_region_valid}
use keystone_workspace.Pmp.Init.{InitResult}
use keystone_workspace.Pmp.Init.Total.{Added}
use keystone_workspace.Pmp.Init.Entries.{Added-valid, Added-self, Added-other}
use keystone_workspace.Sm.Codes.{success}
use keystone_workspace.Sm.State.{
  encl_max, invalid, fresh, region_epm, region_utm, CreateArgs, Machine,
}
use keystone_workspace.Sm.Measure.{Crypto}
use keystone_workspace.Sm.Enclave.{is_create_args_valid, params_of}
use keystone_workspace.Sm.Create.{CreateResult}
use keystone_workspace.Sm.Create.Opened.{measured}

-- Region `i` is new in `p'`, covers `size` bytes from `addr`, and may not overlap.
pub record NewRegion (p p' : Pmp) (i addr size : ℕ) : Type 0 where
  pub low : i < pmp_max_n_region
  pub was_free : is_pmp_region_valid p i ≡ false
  pub is_valid : is_pmp_region_valid p' i ≡ true
  pub addr_is : (p'.regions i).addr ≡ addr
  pub size_is : (p'.regions i).size ≡ size
  pub private_is : (p'.regions i).allow_overlap ≡ false

-- A call that fails: each enclave and each valid region is as it was, and no region is new.
pub record Refunded (m m' : Machine) : Type 0 where
  pub enclaves_are : (j : ℕ) → m'.enclaves j ≡ m.enclaves j
  pub cpus_are : m'.cpus ≡ m.cpus
  pub mem_is : m'.mem ≡ m.mem
  pub valid_are :
      (i : ℕ) → i < pmp_max_n_region → is_pmp_region_valid m'.pmp i ≡ is_pmp_region_valid m.pmp i
  pub regions_are :
      (i : ℕ)
      → i < pmp_max_n_region
      → is_pmp_region_valid m.pmp i ≡ true
      → m'.pmp.regions i ≡ m.pmp.regions i

-- A call that succeeds: the id was free and is a fresh enclave, with two new regions.
pub record Created (c : Crypto) (a : CreateArgs) (m : Machine) (eid : ℕ) (m' : Machine)
    : Type 0 where
  pub epm : ℕ
  pub utm : ℕ
  pub eid_low : eid < encl_max
  pub was_invalid : (m.enclaves eid).state ≡ invalid
  pub state_is : (m'.enclaves eid).state ≡ fresh
  pub threads_are : (m'.enclaves eid).n_thread ≡ 0
  pub epm_entry : (m'.enclaves eid).regions 0 ≡ record { pmp_rid = epm; type = region_epm }
  pub utm_entry : (m'.enclaves eid).regions 1 ≡ record { pmp_rid = utm; type = region_utm }
  pub rest_are : (i : ℕ) → 2 ≤ i → (m'.enclaves eid).regions i ≡ (m.enclaves eid).regions i
  pub params_are : (m'.enclaves eid).params ≡ params_of a
  pub hash_is : (m'.enclaves eid).hash ≡ measured c m'.mem a
  pub others_are : (j : ℕ) → eid ≢ j → m'.enclaves j ≡ m.enclaves j
  pub cpus_are : m'.cpus ≡ m.cpus
  pub epm_new : NewRegion m.pmp m'.pmp epm a.epm_region.paddr a.epm_region.size
  pub utm_new : NewRegion m.pmp m'.pmp utm a.utm_region.paddr a.utm_region.size
  pub distinct : epm ≢ utm
  pub kept :
      (i : ℕ)
      → i < pmp_max_n_region
      → epm ≢ i
      → utm ≢ i
      → (m'.pmp.regions i ≡ m.pmp.regions i)
        × (is_pmp_region_valid m'.pmp i ≡ is_pmp_region_valid m.pmp i)
  pub mem_is :
      (x : ℕ)
      → m'.mem x ≡ (
          if leb a.utm_region.paddr x && ltb x (a.utm_region.paddr + a.utm_region.size)
          then 0
          else m.mem x)

abbrev pub CreateSpec : Crypto → CreateArgs → Machine → CreateResult → Type 0
CreateSpec c a m r =
    ((r.code ≢ success) × (r.eid ≡ none) × Refunded m r.machine)
    ⊎ ((r.code ≡ success)
        × (is_create_args_valid a ≡ true)
        × ((eid : ℕ) × (r.eid ≡ some eid) × Created c a m eid r.machine))

pub Refunded-refl : (m : Machine) → Refunded m m
Refunded-refl m = record {
  enclaves_are = λ j. refl;
  cpus_are = refl;
  mem_is = refl;
  valid_are = λ i l. refl;
  regions_are = λ i l v. refl;
}

-- Two allocations, one after the other.
module _ {p : Pmp} {s1 n1 s2 n2 : ℕ} {r1 r2 : InitResult} (e : Added p s1 n1 false r1)
    (u : Added r1.pmp s2 n2 false r2) where
  pub distinct_idx : e.idx ≢ u.idx
  distinct_idx q =
      let v = Added-valid e e.idx e.low in
      let self : (e.idx == e.idx) ≡ true = ground arith in
      let free : is_pmp_region_valid r1.pmp e.idx ≡ false = rw q u.was_free in ground arith

  pub first_new : NewRegion p r2.pmp e.idx s1 n1
  first_new =
      let there = Added-other u e.idx (λ q. distinct_idx (sym q)) ∙ Added-self e in
      record {
        low = e.low;
        was_free = e.was_free;
        is_valid =
            let one = Added-valid e e.idx e.low in
            let two = Added-valid u e.idx e.low in
            let self : (e.idx == e.idx) ≡ true = ground arith in ground arith;
        addr_is = ap (λ (r : Region). r.addr) there ∙ e.addr_is;
        size_is = ap (λ (r : Region). r.size) there ∙ e.size_is;
        private_is = ap (λ (r : Region). r.allow_overlap) there ∙ e.overlap_is;
      }

  pub second_new : NewRegion p r2.pmp u.idx s2 n2
  second_new =
      let there = Added-self u in
      let d = distinct_idx in
      record {
        low = u.low;
        was_free = let one = Added-valid e u.idx u.low in let f = u.was_free in ground arith;
        is_valid =
            let two = Added-valid u u.idx u.low in
            let self : (u.idx == u.idx) ≡ true = ground arith in ground arith;
        addr_is = ap (λ (r : Region). r.addr) there ∙ u.addr_is;
        size_is = ap (λ (r : Region). r.size) there ∙ u.size_is;
        private_is = ap (λ (r : Region). r.allow_overlap) there ∙ u.overlap_is;
      }

  pub two_kept :
      (i : ℕ)
      → i < pmp_max_n_region
      → e.idx ≢ i
      → u.idx ≢ i
      → (r2.pmp.regions i ≡ p.regions i) × (is_pmp_region_valid r2.pmp i ≡ is_pmp_region_valid p i)
  two_kept i l n k = (
    Added-other u i k ∙ Added-other e i n,
    let one = Added-valid e i l in let two = Added-valid u i l in ground arith,
  )
