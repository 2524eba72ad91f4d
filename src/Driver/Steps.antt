-- ===== src/Driver/Steps.antt =====
-- What each ioctl does to the table of ids.
use keystone_workspace.Base.{
  ℕ, ◌≡◌, ◌≢◌, ◌⊎◌, inl, inr, refl, sym, ap, ◌∙◌, ◌==◌, update, update_self, update_ne, Option,
  none, some, Bool-cases, arith, ==_iff,
}
use keystone_workspace.Base.Outcome.{Returns, Returns-map}
use keystone_workspace.Driver.State.{Epm, Utm, KernelEnclave, Host, Kernel}
use keystone_workspace.Driver.Pages.{epm_init, utm_init}
use keystone_workspace.Driver.Enclaves.{put_enclave, driver_destroy_enclave}
use keystone_workspace.Driver.Live.{Live, driver_destroy_enclave-Freed}

abbrev pub Unnamed : ℕ → (ℕ → Option ℕ) → Type 0
Unnamed p idr = (i : ℕ) → idr i ≢ some p

-- What the kernel promises: kmalloc gives memory that is not in use.
abbrev pub Fresh : {M : Type 0} → Kernel M → Type 0
Fresh {M} k = (h : Host M) → k.kmalloc_enclave h ≢ 0 → h.heap (k.kmalloc_enclave h) ≡ none

named_cases :
    (idr : ℕ → Option ℕ) (i p j q : ℕ)
    → update idr i (some p) j ≡ some q
    → ((i ≡ j) × (p ≡ q)) ⊎ (idr j ≡ some q)
named_cases idr i p j q w = elim (Bool-cases (i == j)) [
  | inl t ↦ let v : some p ≡ some q = sym (rw t refl) ∙ w in inl ((==_iff i j).0 t, cc v)
  | inr f ↦ inr (sym (rw f refl) ∙ w)
]

named-apart :
    (idr : ℕ → Option ℕ) (i p a b q : ℕ)
    → ((i j p : ℕ) → idr i ≡ some p → idr j ≡ some p → i ≡ j)
    → Unnamed p idr
    → ((i ≡ a) × (p ≡ q)) ⊎ (idr a ≡ some q)
    → ((i ≡ b) × (p ≡ q)) ⊎ (idr b ≡ some q)
    → a ≡ b
named-apart idr i p a b q l u (inl (x, z)) (inl (y, w)) = sym x ∙ y
named-apart idr i p a b q l u (inl (x, z)) (inr y) = absurd (u b (y ∙ ap some (sym z)))
named-apart idr i p a b q l u (inr x) (inl (y, z)) = absurd (u a (x ∙ ap some (sym z)))
named-apart idr i p a b q l u (inr x) (inr y) = l a b q x y

module _ {M : Type 0} (k : Kernel M) where
  abbrev pub Alive : Host M → Type 0
  Alive h = Live k h.heap h.idr_enclave

  pub none-Unnamed :
      (heap : ℕ → Option KernelEnclave) (idr : ℕ → Option ℕ) (p : ℕ)
      → Live k heap idr
      → heap p ≡ none
      → Unnamed p idr
  none-Unnamed heap idr p l n i v =
      let (e, epm, nz, hp, he) = l.live i p v in let w : none ≡ some e = sym n ∙ hp in absurd (cc w)

  -- A store to an enclave that no id names
  pub Live-frame :
      (heap : ℕ → Option KernelEnclave) (idr : ℕ → Option ℕ) (p : ℕ) (x : Option KernelEnclave)
      → Live k heap idr
      → Unnamed p idr
      → Live k (update heap p x) idr
  Live-frame heap idr p x l u = record {
    live = λ i q v.
        let (e, epm, nz, hq, he) = l.live i q v in
        let n : p ≢ q = λ z. u i (v ∙ ap some (sym z)) in
        (e, epm, nz, update_ne heap p q x n ∙ hq, he);
    apart = l.apart;
  }

  -- A store to an enclave that keeps its epm
  pub Live-store :
      (heap : ℕ → Option KernelEnclave) (idr : ℕ → Option ℕ) (p : ℕ) (e : KernelEnclave) (epm : Epm)
      → Live k heap idr
      → e.epm ≡ some epm
      → Live k (update heap p (some e)) idr
  Live-store heap idr p e epm l he = record {
    live = λ i q v.
        let (e1, epm1, nz, hq, he1) = l.live i q v in
        elim (Bool-cases (p == q)) [
          | inl t ↦ (e, epm, nz, (rw t refl), he)
          | inr f ↦ (e1, epm1, nz, (rw f hq), he1)
        ];
    apart = l.apart;
  }

  pub Live-name :
      (heap : ℕ → Option KernelEnclave) (idr : ℕ → Option ℕ) (i p : ℕ) (e : KernelEnclave)
      (epm : Epm)
      → Live k heap idr
      → Unnamed p idr
      → p ≢ 0
      → heap p ≡ some e
      → e.epm ≡ some epm
      → Live k heap (update idr i (some p))
  Live-name heap idr i p e epm l u nz hp he = record {
    live = λ j q v. elim (Bool-cases (i == j)) [
      | inl t ↦
          let w : some p ≡ some q = sym (rw t refl) ∙ v in
          let z : p ≡ q = cc w in rw (sym z) (e, epm, nz, hp, he)
      | inr f ↦ l.live j q (sym (rw f refl) ∙ v)
    ];
    apart = λ a b q v w.
        named-apart idr i p a b q l.apart u (named_cases idr i p a q v) (named_cases idr i p b q w);
  }

  -- Only blocks of pages have changed.
  abbrev pub Kept : Host M → Host M → Type 0
  Kept h h1 = (h1.heap ≡ h.heap) × (h1.idr_enclave ≡ h.idr_enclave)

  pub epm_init-Kept : (h : Host M) (epm : Epm) (n : ℕ) → Kept h (epm_init k h epm n).2
  unfolding epm_init
  epm_init-Kept h epm n = (ground arith, ground arith)

  pub utm_init-Kept : (h : Host M) (utm : Utm) (n : ℕ) → Kept h (utm_init k h utm n).2
  unfolding utm_init
  utm_init-Kept h utm n = (ground arith, ground arith)

  -- The enclave at an address that was not in use, or none; the table is as it was.
  pub record Made (h : Host M) (q : ℕ) (h1 : Host M) : Type 0 where
    pub alive : Alive h1
    pub idr : h1.idr_enclave ≡ h.idr_enclave
    pub enclave :
        q ≢ 0
        → (e : KernelEnclave) × (epm : Epm) × (h1.heap q ≡ some e)
          × (e.epm ≡ some epm)
          × Unnamed q h1.idr_enclave

  pub unmade :
      (h h1 : Host M) (p : ℕ) (e : KernelEnclave)
      → Alive h
      → Kept h h1
      → Unnamed p h.idr_enclave
      → p ≢ 0
      → Returns (λ r. Made h 0 r.1) (driver_destroy_enclave k (put_enclave k h1 p e) p)
  unmade h h1 p e l (kh, ki) u n =
      Returns-map
        (λ r f. record {
          alive =
              rw (f.1.heap, f.1.idr, kh, ki)
                (Live-frame (update h.heap p (some e)) h.idr_enclave p none
                  (Live-frame h.heap h.idr_enclave p (some e) l u) u);
          idr = f.1.idr ∙ ki;
          enclave = λ z. absurd (z refl);
        })
        (driver_destroy_enclave-Freed k (put_enclave k h1 p e) p e n
          (update_self h1.heap p (some e)))
