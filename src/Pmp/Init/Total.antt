-- ===== src/Pmp/Init/Total.antt =====
-- What `pmp_region_init` (sm/src/pmp.c) returns on every path.
use keystone_workspace.Base.{
  ℕ, ◌+◌, ◌<◌, ◌≡◌, ◌≢◌, ◌⊎◌, inl, inr, refl, Bool, true, false, not, ◌&&◌, ◌||◌, ltb, leb, ◌==◌,
  ==_iff, if◌then◌else◌, Option, none, some, arith, update, Bool-cases, Option-cases,
}
use native.Mathlib.Decide.{dec_lt}
use keystone_workspace.Base.Outcome.{Outcome, Returns, returns, Returns-bind, Returns-assert}
use keystone_workspace.Pmp.Bitmap.{set_bit, test_bit}
use keystone_workspace.Pmp.Search.{search_rightmost_unset, search_loop}
use keystone_workspace.Pmp.Search.Laws.{search_one, search_two, search_one-some, search_two-some}
use keystone_workspace.Pmp.State.{
  pmp_n_reg, pmp_max_n_region, page_size, ulong_max, off, Priority, any, top, bottom, Region, Pmp,
  region_init, is_pmp_region_valid,
}
use keystone_workspace.Pmp.Init.{
  InitResult, failed, napot_with, tor_with, napot_at, tor_at, napot_commit, napot_reg,
  napot_region_init, tor_commit, tor_reg, tor_region_init, init_checked, pmp_region_init, no_common,
  is_bottom, is_any, is_top, detect_region_overlap,
}

-- A success: the new region, at an index that was free.
pub record Added (p : Pmp) (start size : ℕ) (allow_overlap : Bool) (r : InitResult) : Type 0 where
  pub idx : ℕ
  pub region : Region
  pub low : idx < pmp_max_n_region
  pub was_free : is_pmp_region_valid p idx ≡ false
  pub rid_is : r.rid ≡ some idx
  pub regions_are : r.pmp.regions ≡ update p.regions idx region
  pub defined_are : r.pmp.region_def_bitmap ≡ set_bit p.region_def_bitmap idx
  pub addr_is : region.addr ≡ start
  pub size_is : region.size ≡ size
  pub overlap_is : region.allow_overlap ≡ allow_overlap
  pub mode_is : region.addrmode ≢ off
  pub reg_low : region.reg_idx < pmp_n_reg

abbrev pub InitSpec : Pmp → ℕ → ℕ → Bool → InitResult → Type 0
InitSpec p start size allow_overlap r =
    ((r.code ≢ 0) × (r.pmp ≡ p)) ⊎ ((r.code ≡ 0) × Added p start size allow_overlap r)

napot_commit-Added :
    (p : Pmp) (start size : ℕ) (ov : Bool) (idx reg : ℕ)
    → idx < pmp_max_n_region
    → reg < pmp_n_reg
    → is_pmp_region_valid p idx ≡ false
    → Returns (InitSpec p start size ov) (napot_commit p start size ov idx reg)
unfolding napot_commit region_init
napot_commit-Added p start size ov idx reg h k f = returns (
    inr (
      refl,
      record {
        idx = idx;
        region = _;
        low = h;
        was_free = f;
        rid_is = refl;
        regions_are = refl;
        defined_are = refl;
        addr_is = refl;
        size_is = refl;
        overlap_is = refl;
        mode_is = λ e. cc;
        reg_low = k;
      },
    ))

tor_commit-Added :
    (p : Pmp) (start size : ℕ) (ov : Bool) (idx reg : ℕ)
    → idx < pmp_max_n_region
    → reg + 1 < pmp_n_reg
    → is_pmp_region_valid p idx ≡ false
    → Returns (InitSpec p start size ov) (tor_commit p start size ov idx reg)
unfolding tor_commit region_init
tor_commit-Added p start size ov idx reg h k f = returns (
    inr (
      refl,
      record {
        idx = idx;
        region = _;
        low = h;
        was_free = f;
        rid_is = refl;
        regions_are = refl;
        defined_are = refl;
        addr_is = refl;
        size_is = refl;
        overlap_is = refl;
        mode_is = λ e. cc;
        reg_low = ground arith;
      },
    ))

-- The register that a call gets: below the number of registers, and clear in the bitmap unless the
-- priority is BOTTOM.
abbrev GoodReg : Pmp → Priority → Option ℕ → Type 0
GoodReg p pr none = Unit
GoodReg p pr (some reg) =
    (reg < pmp_n_reg) × ((test_bit p.reg_bitmap reg ≡ false) ⊎ ((pr ≡ bottom) × (reg ≡ 7)))

napot_reg-GoodReg : (p : Pmp) (pr : Priority) → Returns (GoodReg p pr) (napot_reg p pr)
unfolding napot_reg
napot_reg-GoodReg p any = elim (Option-cases (search_loop 32 p.reg_bitmap pmp_n_reg 1 0)) [
  | inl e ↦ rw (search_one p.reg_bitmap pmp_n_reg (omega arith), e) (returns tt)
  | inr (r, e) ↦
      let (low, clear) = search_one-some p.reg_bitmap pmp_n_reg r (omega arith) e in
      let fits : leb pmp_n_reg r ≡ false = ground arith in
      rw (search_one p.reg_bitmap pmp_n_reg (omega arith), e)
        (rw (clear, fits) (returns (low, inl clear)))
]
napot_reg-GoodReg p top = elim (Bool-cases (test_bit p.reg_bitmap 0)) [
  | inl e ↦ rw e (returns tt)
  | inr e ↦ rw e (returns (omega arith, inl e))
]
napot_reg-GoodReg p bottom = returns (omega arith, inr (refl, refl))

abbrev FreeIdx : Pmp → Option ℕ → Type 0
FreeIdx p none = Unit
FreeIdx p (some idx) = (idx < pmp_max_n_region) × (is_pmp_region_valid p idx ≡ false)

free_idx :
    (p : Pmp)
    → Returns (FreeIdx p) (search_rightmost_unset p.region_def_bitmap pmp_max_n_region 0x1)
unfolding is_pmp_region_valid
free_idx p = elim (Option-cases (search_loop 32 p.region_def_bitmap pmp_max_n_region 1 0)) [
  | inl e ↦ rw (search_one p.region_def_bitmap pmp_max_n_region (omega arith), e) (returns tt)
  | inr (r, e) ↦
      rw (search_one p.region_def_bitmap pmp_max_n_region (omega arith), e)
        (returns (search_one-some p.region_def_bitmap pmp_max_n_region r (omega arith) e))
]

in_table : (idx : ℕ) → idx < pmp_max_n_region → ltb pmp_max_n_region idx ≡ false
in_table idx h = ground arith

-- The two registers of a region with two entries, or register 0 for one that starts at address 0.
abbrev GoodTor : Pmp → Priority → Option ℕ → Type 0
GoodTor p pr none = Unit
GoodTor p pr (some reg) =
    (reg + 1 < pmp_n_reg)
    × (test_bit p.reg_bitmap reg ≡ false)
    × ((test_bit p.reg_bitmap (reg + 1) ≡ false) ⊎ (reg ≡ 0))

tor_reg-GoodTor :
    (p : Pmp) (start : ℕ) (pr : Priority)
    → is_bottom pr ≡ false
    → (pr ≡ top → start ≡ 0)
    → Returns (GoodTor p pr) (tor_reg p start pr)
unfolding tor_reg
tor_reg-GoodTor p start any b t = elim (Option-cases (search_loop 32 p.reg_bitmap pmp_n_reg 3 0)) [
  | inl e ↦ rw (search_two p.reg_bitmap pmp_n_reg (omega arith), e) (returns tt)
  | inr (r, e) ↦
      let (low, one, two) = search_two-some p.reg_bitmap pmp_n_reg r (omega arith) e in
      let fits : leb pmp_n_reg (r + 1) ≡ false = ground arith in
      rw (search_two p.reg_bitmap pmp_n_reg (omega arith), e)
        (rw (one, two, fits) (returns (low, one, inl two)))
]
tor_reg-GoodTor p start top b t = elim (Bool-cases (test_bit p.reg_bitmap 0)) [
  | inl e ↦ Returns-assert ((==_iff start 0).1 (t refl)) (rw e (returns tt))
  | inr e ↦ Returns-assert ((==_iff start 0).1 (t refl)) (rw e (returns (omega arith, e, inr refl)))
]
tor_reg-GoodTor p start bottom b t = cc

abbrev napot_shape : ℕ → ℕ → Bool
napot_shape start size =
    (if size == ulong_max && start == 0
      then true
      else no_common size size
        && no_common start size
        && no_common size page_size
        && no_common start page_size)

module _ (p : Pmp) (start size : ℕ) (ov : Bool) where
  failed-InitSpec :
      (code : ℕ) (rid : Option ℕ)
      → code ≢ 0
      → Returns (InitSpec p start size ov) (failed p code rid)
  failed-InitSpec code rid h = returns (inl (h, refl))

  napot_with-InitSpec :
      (pr : Priority) (idx : ℕ)
      → idx < pmp_max_n_region
      → is_pmp_region_valid p idx ≡ false
      → (o : Option ℕ) → GoodReg p pr o
      → Returns (InitSpec p start size ov) (napot_with p start size ov idx o)
  unfolding napot_with
  napot_with-InitSpec pr idx h f none g = failed-InitSpec _ _ (λ e. cc)
  napot_with-InitSpec pr idx h f (some reg) g = napot_commit-Added p start size ov idx reg h g.0 f

  tor_with-InitSpec :
      (pr : Priority) (idx : ℕ)
      → idx < pmp_max_n_region
      → is_pmp_region_valid p idx ≡ false
      → (o : Option ℕ) → GoodTor p pr o
      → Returns (InitSpec p start size ov) (tor_with p start size ov idx o)
  unfolding tor_with
  tor_with-InitSpec pr idx h f none g = failed-InitSpec _ _ (λ e. cc)
  tor_with-InitSpec pr idx h f (some reg) g = tor_commit-Added p start size ov idx reg h g.0 f

  napot_at-InitSpec :
      (pr : Priority) (o : Option ℕ)
      → FreeIdx p o
      → Returns (InitSpec p start size ov) (napot_at p start size pr ov o)
  unfolding napot_at
  napot_at-InitSpec pr none g = failed-InitSpec _ _ (λ e. cc)
  napot_at-InitSpec pr (some idx) g =
      rw (in_table idx g.0)
        (Returns-bind (napot_reg-GoodReg p pr) (napot_with-InitSpec pr idx g.0 g.1))

  tor_at-InitSpec :
      (pr : Priority) (o : Option ℕ)
      → is_bottom pr ≡ false
      → (pr ≡ top → start ≡ 0)
      → FreeIdx p o
      → Returns (InitSpec p start size ov) (tor_at p start size pr ov o)
  unfolding tor_at
  tor_at-InitSpec pr none b t g = failed-InitSpec _ _ (λ e. cc)
  tor_at-InitSpec pr (some idx) b t g =
      rw (in_table idx g.0)
        (Returns-bind (tor_reg-GoodTor p start pr b t) (tor_with-InitSpec pr idx g.0 g.1))

  napot_region_init-total :
      (pr : Priority)
      → (size == 0) ≡ false
      → napot_shape start size ≡ true
      → Returns (InitSpec p start size ov) (napot_region_init p start size pr ov)
  unfolding napot_region_init
  napot_region_init-total pr h k = Returns-assert {b = not (size == 0)} (rw h) (
      Returns-assert {b = napot_shape start size} k
        (Returns-bind (free_idx p) (napot_at-InitSpec pr)))

  tor_region_init-total :
      (pr : Priority)
      → (size == 0) ≡ false
      → no_common size page_size ≡ true
      → no_common start page_size ≡ true
      → is_bottom pr ≡ false
      → (pr ≡ top → start ≡ 0)
      → Returns (InitSpec p start size ov) (tor_region_init p start size pr ov)
  unfolding tor_region_init
  tor_region_init-total pr h k l b t = Returns-assert {b = not (size == 0)} (rw h) (
      Returns-assert {b = no_common size page_size} k (
        Returns-assert {b = no_common start page_size} l (
          Returns-assert {b = not (is_bottom pr)} (rw b)
            (Returns-bind (free_idx p) (λ o. tor_at-InitSpec pr o b t)))))

  module _ (pr : Priority) (nonzero : (size == 0) ≡ false) where
    -- Past the granularity tests the assertions of the two branches hold, if a size of -1UL comes
    -- with address 0 only.
    init_checked-total :
        (size ≢ ulong_max) ⊎ (start ≡ 0)
        → Returns (InitSpec p start size ov) (init_checked p start size pr ov)
    unfolding init_checked
    init_checked-total h =
        elim (Bool-cases (not (size == ulong_max) && not (no_common size page_size))) [
          | inl e ↦ rw e (failed-InitSpec _ _ (λ c. cc))
          | inr e ↦ rw e (elim (Bool-cases (not (no_common start page_size))) [
            | inl f ↦ rw f (failed-InitSpec _ _ (λ c. cc))
            | inr f ↦
                rw f
                  (elim (Bool-cases (
                    size == ulong_max && start == 0
                    || no_common size size && no_common start size)) [
                      | inl g ↦ rw g (napot_region_init-total pr nonzero (ground arith))
                      | inr g ↦
                          rw g
                            (elim (Bool-cases
                              (not (is_any pr) && (not (is_top pr) || not (start == 0)))) [
                                | inl i ↦ rw i (failed-InitSpec _ _ (λ c. cc))
                                | inr i ↦ rw i (
                                    tor_region_init-total pr nonzero (ground arith) (ground arith)
                                      (ground arith) (λ t. ground arith))
                              ])
                    ])
          ])
        ]

  abbrev pub Accepts : ℕ → Type 0
  Accepts code = code ≡ 0 → (size ≢ 0) × (ov ≡ false → detect_region_overlap p start size ≡ false)

  no_wrap : detect_region_overlap p start size ≡ false → (size ≢ ulong_max) ⊎ (start ≡ 0)
  unfolding detect_region_overlap
  no_wrap h = elim (dec_lt 0 start) [ yes l ↦ inl (λ e. ground arith) | no l ↦ inr (omega arith) ]

  refused :
      (code : ℕ)
      → code ≢ 0
      → Returns (λ r. InitSpec p start size ov r × Accepts r.code) (failed p code none)
  refused code h = returns (inl (h, refl), λ e. absurd (h e))

  and_Accepts :
      {m : Outcome InitResult}
      → size ≢ 0
      → (ov ≡ false → detect_region_overlap p start size ≡ false)
      → Returns (InitSpec p start size ov) m
      → Returns (λ r. InitSpec p start size ov r × Accepts r.code) m
  and_Accepts n d (returns s) = returns (s, λ e. (n, d))

  -- `pmp_region_init` returns, for every priority: with an error and the state as it was, or with
  -- one region more at a free index. A region that may not overlap is added only if the overlap
  -- test passed. Only a region that may overlap can reach a failing assertion, with size -1UL at
  -- an address that is not 0.
  pub pmp_region_init-total :
      (pr : Priority)
      → (ov ≡ false) ⊎ ((size ≢ ulong_max) ⊎ (start ≡ 0))
      → Returns
          (λ r. InitSpec p start size ov r × Accepts r.code)
          (pmp_region_init p start size pr ov)
  unfolding pmp_region_init
  pmp_region_init-total pr h = elim (Bool-cases (size == 0)) [
    | inl z ↦ rw z (refused _ (λ e. cc))
    | inr z ↦ rw z (elim (Bool-cases (not ov && detect_region_overlap p start size)) [
      | inl d ↦ rw d (refused _ (λ e. cc))
      | inr d ↦ rw d (
          and_Accepts (λ e. ground arith) (λ e. ground arith)
            (init_checked-total pr z (ground (arith, no_wrap))))
    ])
  ]
