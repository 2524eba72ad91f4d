-- ===== src/Driver/Sizes.antt =====
-- The sizes of the memory that the driver allocates.
use keystone_workspace.Base.{
  ℕ, zero, suc, ◌+◌, ◌-◌, ◌*◌, ◌/◌, ◌%◌, ◌^◌, ◌<◌, ◌≤◌, ◌≡◌, ◌≢◌, refl, sym, ◌∙◌, true, ◌||◌, ltb,
  ◌==◌, if◌then◌else◌, arith, Bool-cases, inl, inr, update_self,
}
use keystone_workspace.Base.Words.Masks.{pow_double}
use keystone_workspace.Driver.State.{Code, ok, enomem, Epm, Host, Kernel}
use keystone_workspace.Driver.Pages.{digits, epm_init, epm_cma}

digits_bound : (f x : ℕ) → x < 2 ^ f → x < 2 ^ digits f x
unfolding digits
digits_bound zero x h = h
digits_bound (suc f) x h =
    let ih = digits_bound f (x / 2) (omega (arith, pow_double f)) in
    elim (Bool-cases (x == 0)) [
      | inl t ↦ let z : x ≡ 0 = ground (arith, t) in rw t (omega (arith, z))
      | inr e ↦ rw e (
          let d = pow_double (digits f (x / 2)) in
          let s : digits f (x / 2) + 1 ≡ suc (digits f (x / 2)) = omega arith in
          rw s (omega (arith, d, ih)))
    ]

-- The pages of the order are enough.
order_enough : (n : ℕ) → 0 < n → n < 2 ^ 32 → n ≤ 2 ^ digits 32 ((n + 2 ^ 32 - 1) % 2 ^ 32)
order_enough n l u =
    let e : (n + 2 ^ 32 - 1) % 2 ^ 32 ≡ n - 1 = omega arith in
    rw e (omega (arith, digits_bound 32 (n - 1) (omega arith)))

module _ {M : Type 0} (k : Kernel M) where
  -- The memory that was asked for is there.
  abbrev Enough : ℕ → Code × Epm × Host M → Type 0
  Enough n (code, epm, h) = (n * 4096 ≤ epm.size) × (epm.ptr ≢ 0) × (h.blocks epm.ptr ≡ true)

  cma-Enough :
      (h : Host M) (epm : Epm) (order n : ℕ) (a : ℕ × ℕ)
      → (epm_cma k h epm order n a).0 ≡ ok
      → Enough n (epm_cma k h epm order n a)
  cma-Enough h epm order n (ptr, phys) c = elim (Bool-cases (ptr == 0 || phys == 0)) [
    | inl t ↦ let d : enomem ≡ ok = sym (rw t refl) ∙ c in absurd (cc d)
    | inr f ↦ rw f (omega arith, ground (arith, f), update_self h.blocks ptr true)
  ]

  -- epm_init for a positive number of pages below 2^32 gives, if it succeeds, an allocated block of
  -- at least that many pages.
  pub epm_init_lem :
      (h : Host M) (epm : Epm) (n : ℕ)
      → 0 < n
      → n < 2 ^ 32
      → (epm_init k h epm n).0 ≡ ok
      → let (code, epm1, h1) = epm_init k h epm n in
        (n * 4096 ≤ epm1.size) × (epm1.ptr ≢ 0) × (h1.blocks epm1.ptr ≡ true)
  unfolding epm_init
  epm_init_lem h epm n l u c =
      let order = digits 32 ((n + 2 ^ 32 - 1) % 2 ^ 32) in
      let ptr = if ltb order k.max_order then k.get_free_pages h order else 0 in
      elim (Bool-cases (ptr == 0)) [
        | inl t ↦
            let a = k.dma_alloc_coherent h (n * 4096) in
            let c1 : (epm_cma k h epm order n a).0 ≡ ok = sym (rw t refl) ∙ c in
            rw t (cma-Enough h epm order n a c1)
        | inr f ↦
            rw f
              (omega (arith, order_enough n l u), ground (arith, f), update_self h.blocks ptr true)
      ]
