-- ===== src/Driver/Live.antt =====
-- Which enclaves the table of ids names.
use keystone_workspace.Base.{
  ℕ, ◌≡◌, ◌≢◌, inl, inr, refl, sym, ap, ◌∙◌, false, ◌||◌, ◌==◌, update, update_ne, Option, none,
  some, Bool-cases, arith,
}
use keystone_workspace.Base.Outcome.{Returns, returns}
use keystone_workspace.Driver.State.{ok, Epm, Utm, KernelEnclave, Host, Kernel}
use keystone_workspace.Driver.Pages.{epm_destroy, utm_destroy}
use keystone_workspace.Driver.Enclaves.{drop_epm, drop_utm, driver_destroy_enclave}

removed :
    (idr : ℕ → Option ℕ) (i j q : ℕ) → update idr i none j ≡ some q → (i ≢ j) × (idr j ≡ some q)
removed idr i j q w = elim (Bool-cases (i == j)) [
  | inl t ↦ let v : none ≡ some q = sym (rw t refl) ∙ w in absurd (cc v)
  | inr f ↦ let v : idr j ≡ some q = sym (rw f refl) ∙ w in (ground (arith, f), v)
]

module _ {M : Type 0} (k : Kernel M) where
  -- Every id names an enclave that has not been freed and has its epm, and two ids name two.
  pub record Live (heap : ℕ → Option KernelEnclave) (idr : ℕ → Option ℕ) : Type 0 where
    pub live :
        (i p : ℕ)
        → idr i ≡ some p
        → (e : KernelEnclave) × (epm : Epm) × (p ≢ 0) × (heap p ≡ some e) × (e.epm ≡ some epm)
    pub apart : (i j p : ℕ) → idr i ≡ some p → idr j ≡ some p → i ≡ j

  -- Only blocks of pages have changed.
  pub record Same (h h1 : Host M) : Type 0 where
    pub heap : h1.heap ≡ h.heap
    pub idr : h1.idr_enclave ≡ h.idr_enclave
    pub monitor : h1.monitor ≡ h.monitor
    pub private_data : h1.private_data ≡ h.private_data

  Same-refl : (h : Host M) → Same h h
  Same-refl h = record { heap = refl; idr = refl; monitor = refl; private_data = refl }

  drop_epm-Same : (h : Host M) (o : Option Epm) → Same h (drop_epm k h o)
  unfolding epm_destroy
  drop_epm-Same h none = Same-refl h
  drop_epm-Same h (some epm) = elim (Bool-cases (epm.ptr == 0 || epm.size == 0)) [
    | inl t ↦ rw t (Same-refl h)
    | inr f ↦ rw f (record { heap = refl; idr = refl; monitor = refl; private_data = refl })
  ]

  drop_utm-Same : (h : Host M) (o : Option Utm) → Same h (drop_utm k h o)
  unfolding utm_destroy
  drop_utm-Same h none = Same-refl h
  drop_utm-Same h (some utm) = elim (Bool-cases (utm.ptr == 0)) [
    | inl t ↦ rw t (Same-refl h)
    | inr f ↦ rw f (record { heap = refl; idr = refl; monitor = refl; private_data = refl })
  ]

  -- The enclave is gone, and nothing else but its blocks.
  pub record Freed (p : ℕ) (h h1 : Host M) : Type 0 where
    pub heap : h1.heap ≡ update h.heap p none
    pub idr : h1.idr_enclave ≡ h.idr_enclave
    pub monitor : h1.monitor ≡ h.monitor
    pub private_data : h1.private_data ≡ h.private_data

  pub driver_destroy_enclave-Freed :
      (h : Host M) (p : ℕ) (e : KernelEnclave)
      → p ≢ 0
      → h.heap p ≡ some e
      → Returns (λ r. (r.0 ≡ ok) × Freed p h r.1) (driver_destroy_enclave k h p)
  unfolding driver_destroy_enclave
  driver_destroy_enclave-Freed h p e n w =
      let t : (p == 0) ≡ false = ground arith in
      let a = drop_epm-Same h e.epm in
      let b = drop_utm-Same (drop_epm k h e.epm) e.utm in
      rw (t, w)
        (returns (
          refl,
          record {
            heap = ap (λ (f : ℕ → Option KernelEnclave). update f p none) (b.heap ∙ a.heap);
            idr = b.idr ∙ a.idr;
            monitor = b.monitor ∙ a.monitor;
            private_data = b.private_data ∙ a.private_data;
          },
        ))

  -- To take an id and its enclave away keeps the rest alive.
  pub Live-remove :
      (heap : ℕ → Option KernelEnclave) (idr : ℕ → Option ℕ) (i p : ℕ)
      → Live heap idr
      → idr i ≡ some p
      → Live (update heap p none) (update idr i none)
  Live-remove heap idr i p l e = record {
    live = λ j q w.
        let (n, v) = removed idr i j q w in
        let (x, epm, nz, hq, he) = l.live j q v in
        let m : p ≢ q = λ z. n (l.apart i j q (e ∙ ap some z) v) in
        (x, epm, nz, update_ne heap p q none m ∙ hq, he);
    apart = λ a b q u w. l.apart a b q (removed idr i a q u).1 (removed idr i b q w).1;
  }
