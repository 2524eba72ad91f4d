-- ===== src/Pmp/Isolation.antt =====
-- Regions that may not overlap, over sequences of allocations and releases (sm/src/pmp.c).
use native.Mathlib.Decide.{dec_lt, ℕ_discrete}
use keystone_workspace.Base.{
  ℕ, zero, suc, ◌+◌, ◌^◌, ◌≤◌, ◌<◌, ◌≡◌, ◌≢◌, ◌⊎◌, inl, inr, sym, ap, ◌∙◌, Bool, true, false, leb,
  arith,
}
use keystone_workspace.Base.Outcome.{ret, ret-injective, Returns-result}
use keystone_workspace.Pmp.Bitmap.{test_bit, test_bit-set_bit, test_bit-unset_bit}
use keystone_workspace.Pmp.State.{
  pmp_max_n_region, ulong_max, Priority, Region, Pmp, initial, is_pmp_region_valid,
  region_clear_all,
}
use keystone_workspace.Pmp.Init.{
  InitResult, overlaps, overlap_loop, detect_region_overlap, pmp_region_init, pmp_region_free,
}
use keystone_workspace.Pmp.Init.Total.{Added, pmp_region_init-total}

-- [a, a + s) and [b, b + t) have no address in common.
abbrev pub Apart : ℕ → ℕ → ℕ → ℕ → Type 0
Apart a s b t = (a + s ≤ b) ⊎ (b + t ≤ a)

-- A valid region that may not overlap.
abbrev pub Private : Pmp → ℕ → Type 0
Private p i =
    (i < pmp_max_n_region)
    × (is_pmp_region_valid p i ≡ true)
    × ((p.regions i).allow_overlap ≡ false)

pub record Isolated (p : Pmp) : Type 0 where
  pub bounded : (i : ℕ) → Private p i → (p.regions i).addr + (p.regions i).size < 2 ^ 64
  pub apart :
      (i j : ℕ)
      → i ≢ j
      → Private p i
      → Private p j
      → Apart (p.regions i).addr (p.regions i).size (p.regions j).addr (p.regions j).size

overlap_loop-false :
    (p : Pmp) (addr input_end rounds i : ℕ) (acc : Bool)
    → overlap_loop p addr input_end rounds i acc ≡ false
    → (acc ≡ false) × ((j : ℕ) → i ≤ j → j < i + rounds → overlaps p addr input_end j ≡ false)
unfolding overlap_loop
overlap_loop-false p addr input_end zero i acc h = (h, λ j l u. absurd (omega arith))
overlap_loop-false p addr input_end (suc rounds) i acc h =
    let (here, later) = overlap_loop-false p addr input_end rounds (i + 1) _ h in
    (
      ground arith,
      λ j l u. elim (ℕ_discrete i j) [
        | yes e ↦ let now : overlaps p addr input_end i ≡ false = ground arith in rw e at now
        | no n ↦ later j (ground arith) (omega arith)
      ],
    )

detect-false :
    (p : Pmp) (addr size : ℕ)
    → detect_region_overlap p addr size ≡ false
    → (addr + size < 2 ^ 64)
      × ((j : ℕ) → j < pmp_max_n_region → overlaps p addr (addr + size) j ≡ false)
unfolding detect_region_overlap
detect-false p addr size h = elim (dec_lt (addr + size) (2 ^ 64)) [
  | yes l ↦
      let fits : leb (2 ^ 64) (addr + size) ≡ false = ground arith in
      let run = rw fits at h in
      (
        l,
        λ j u.
            (overlap_loop-false p addr (addr + size) pmp_max_n_region 0 false run).1 j (omega arith)
              (omega arith),
      )
  | no l ↦ absurd (ground arith)
]

apart_of_not-overlaps :
    (p : Pmp) (addr input_end j : ℕ)
    → Isolated p
    → Private p j
    → overlaps p addr input_end j ≡ false
    → (input_end ≤ (p.regions j).addr) ⊎ ((p.regions j).addr + (p.regions j).size ≤ addr)
unfolding overlaps
apart_of_not-overlaps p addr input_end j v q h = ground (arith, v.bounded j q)

swap_sides : {A B : Type 0} → A ⊎ B → B ⊎ A
swap_sides (inl h) = inr h
swap_sides (inr h) = inl h

module _ {p : Pmp} {start size : ℕ} {ov : Bool} {r : InitResult} where
  -- A private region of the new state is the new one, or one of the old state.
  Private-Added :
      (a : Added p start size ov r) (i : ℕ)
      → Private r.pmp i
      → ((i ≡ a.idx) × (r.pmp.regions i ≡ a.region) × (ov ≡ false))
        ⊎ ((r.pmp.regions i ≡ p.regions i) × Private p i)
  unfolding is_pmp_region_valid
  Private-Added a i q =
      let entry = ap (λ (f : ℕ → Region). f i) a.regions_are in
      let valid = ap (λ (b : ℕ). test_bit b i) a.defined_are in
      let low : a.idx < 32 = omega (arith, a.low) in
      let low' : i < 32 = omega (arith, q.0) in
      elim (ℕ_discrete a.idx i) [
        | yes e ↦ inl (sym e, ground arith, ground arith)
        | no n ↦ inr (
          ground arith,
          (
            q.0,
            ground (arith, test_bit-set_bit p.region_def_bitmap a.idx i low low'),
            ground arith,
          ),
        )
      ]

  Isolated-Added :
      (a : Added p start size ov r)
      → (ov ≡ false → detect_region_overlap p start size ≡ false)
      → Isolated p
      → Isolated r.pmp
  Isolated-Added a d v = record {
    bounded = λ i q. elim (Private-Added a i q) [
      | inl (e, f, o) ↦ ground (arith, (detect-false p start size (d o)).0)
      | inr (f, q') ↦ rw f (v.bounded i q')
    ];
    apart = λ i j n q t. elim (Private-Added a i q) [
      | inl (e, f, o) ↦ elim (Private-Added a j t) [
        | inl (e', f', o') ↦ absurd (n (e ∙ sym e'))
        | inr (f', t') ↦
            let free = (detect-false p start size (d o)).1 j t'.0 in
            rw (f, f', a.addr_is, a.size_is)
              (apart_of_not-overlaps p start (start + size) j v t' free)
      ]
      | inr (f, q') ↦ elim (Private-Added a j t) [
        | inl (e', f', o') ↦
            let free = (detect-false p start size (d o')).1 i q'.0 in
            rw (f, f', a.addr_is, a.size_is)
              (swap_sides (apart_of_not-overlaps p start (start + size) i v q' free))
        | inr (f', t') ↦ rw (f, f') (v.apart i j n q' t')
      ]
    ];
  }

-- The calls that cannot reach a failing assertion; `osm_init` makes the only call that allows an
-- overlap, with address 0.
abbrev pub Callable : ℕ → ℕ → Bool → Type 0
Callable start size allow_overlap = (allow_overlap ≡ false) ⊎ ((size ≢ ulong_max) ⊎ (start ≡ 0))

-- One call of the interface.
pub data Step (p : Pmp) : Pmp → Type 0 where
  init :
      (start size : ℕ) (priority : Priority) (allow_overlap : Bool) (r : InitResult)
      → Callable start size allow_overlap
      → pmp_region_init p start size priority allow_overlap ≡ ret r
      → Step p r.pmp
  free : (i : ℕ) → i < pmp_max_n_region → Step p (pmp_region_free p i).1

pub data Reach (p : Pmp) : Pmp → Type 0 where
  here : Reach p p
  next : {q r : Pmp} → Reach p q → Step q r → Reach p r

Isolated-init :
    (p : Pmp) (start size : ℕ) (priority : Priority) (ov : Bool) (r : InitResult)
    → Callable start size ov
    → pmp_region_init p start size priority ov ≡ ret r
    → Isolated p
    → Isolated r.pmp
Isolated-init p start size priority ov r c e v =
    let (s, f, both) = Returns-result (pmp_region_init-total p start size ov priority c) in
    let (spec, ok) = both in
    let same : s ≡ r = ret-injective (sym f ∙ e) in
    rw (← same) (elim spec [
      | inl (n, unchanged) ↦ rw unchanged v
      | inr (z, added) ↦ Isolated-Added added (ok z).1 v
    ])

Private-free :
    (p : Pmp) (k i : ℕ)
    → k < pmp_max_n_region
    → Private (pmp_region_free p k).1 i
    → Private p i × ((pmp_region_free p k).1.regions i ≡ p.regions i)
unfolding pmp_region_free region_clear_all is_pmp_region_valid
Private-free p k i l q =
    let low : k < 32 = omega (arith, l) in
    let low' : i < 32 = omega (arith, q.0) in
    ground (arith, test_bit-unset_bit p.region_def_bitmap k i low low')

Isolated-free :
    (p : Pmp) (k : ℕ) → k < pmp_max_n_region → Isolated p → Isolated (pmp_region_free p k).1
Isolated-free p k l v = record {
  bounded = λ i q. let (t, e) = Private-free p k i l q in rw e (v.bounded i t);
  apart = λ i j n q t.
      let (q', e) = Private-free p k i l q in
      let (t', f) = Private-free p k j l t in rw (e, f) (v.apart i j n q' t');
}

Step-Isolated : {p q : Pmp} → Step p q → Isolated p → Isolated q
Step-Isolated {p} (init start size priority ov r c e) v =
    Isolated-init p start size priority ov r c e v
Step-Isolated {p} (free i l) v = Isolated-free p i l v

initial-Isolated : Isolated initial
unfolding is_pmp_region_valid
initial-Isolated = record { bounded = λ i q. omega arith; apart = λ i j n q t. inl (omega arith) }

pub Isolated-Reach : {p q : Pmp} → Isolated p → Reach p q → Isolated q
Isolated-Reach v here = v
Isolated-Reach v (next r s) = Step-Isolated s (Isolated-Reach v r)

-- After any sequence of calls from the start, two valid regions that may not overlap have no
-- address in common, and none of them passes the end of the address space.
pub Reach-Isolated : {p : Pmp} → Reach initial p → Isolated p
Reach-Isolated r = Isolated-Reach initial-Isolated r
