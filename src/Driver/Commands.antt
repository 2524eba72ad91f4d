-- ===== src/Driver/Commands.antt =====
-- The commands on a table whose ids name live enclaves.
use keystone_workspace.Base.{
  ℕ, ◌%◌, ◌^◌, ◌≡◌, ◌≢◌, inl, inr, refl, ◌||◌, ltb, leb, ◌==◌, update_self, Option, none, some,
  Bool-cases, arith,
}
use keystone_workspace.Base.Outcome.{Returns, returns, Returns-bind}
use keystone_workspace.Driver.State.{
  Code, ok, enomem, einval, enosys, efault, Epm, KernelEnclave, CreateArg, Host, Monitor, Kernel,
}
use keystone_workspace.Driver.Pages.{epm_init}
use keystone_workspace.Driver.Enclaves.{
  fresh_enclave, created, create_with, driver_create_enclave, enclave_idr_alloc, id_in_range,
}
use keystone_workspace.Driver.Ioctl.{create_at, keystone_create_enclave}
use keystone_workspace.Driver.Steps.{
  Unnamed, Fresh, Alive, Kept, Made, none-Unnamed, Live-frame, Live-name, epm_init-Kept, unmade,
}

module _ {M : Type 0} (k : Kernel M) where
  created-Made :
      (h : Host M) (p : ℕ) (e : KernelEnclave) (r : Code × Epm × Host M)
      → Alive k h
      → Kept k h r.2
      → Unnamed p h.idr_enclave
      → p ≢ 0
      → Returns (λ x. Made k h x.0 x.1) (created k p e r)
  created-Made h p e (ok, epm, h1) l (kh, ki) u n = returns (record {
    alive =
        rw (kh, ki) (Live-frame k h.heap h.idr_enclave p (some (record e { epm = some epm })) l u);
    idr = ki;
    enclave = λ z. (
      record e { epm = some epm },
      epm,
      update_self h1.heap p (some (record e { epm = some epm })),
      refl,
      rw ki u,
    );
  })
  created-Made h p e (enomem, epm, h1) l s u n =
      Returns-bind (unmade k h h1 p (record e { epm = some epm }) l s u n) (λ r m. returns m)
  created-Made h p e (einval, epm, h1) l s u n =
      Returns-bind (unmade k h h1 p (record e { epm = some epm }) l s u n) (λ r m. returns m)
  created-Made h p e (enosys, epm, h1) l s u n =
      Returns-bind (unmade k h h1 p (record e { epm = some epm }) l s u n) (λ r m. returns m)
  created-Made h p e (efault, epm, h1) l s u n =
      Returns-bind (unmade k h h1 p (record e { epm = some epm }) l s u n) (λ r m. returns m)

  create_with-Made :
      (h : Host M) (p : ℕ) (n : ℕ) (o : Option Epm)
      → Alive k h
      → Unnamed p h.idr_enclave
      → p ≢ 0
      → Returns (λ x. Made k h x.0 x.1) (create_with k h p fresh_enclave n o)
  create_with-Made h p n none l u z =
      Returns-bind (unmade k h h p fresh_enclave l (refl, refl) u z) (λ r m. returns m)
  create_with-Made h p n (some epm) l u z =
      created-Made h p fresh_enclave (epm_init k h epm n) l (epm_init-Kept k h epm n) u z

  driver_create_enclave-Made :
      (h : Host M) (n : ℕ)
      → Fresh k
      → Alive k h
      → Returns (λ x. Made k h x.0 x.1) (driver_create_enclave k h n)
  unfolding driver_create_enclave
  driver_create_enclave-Made h n pr l = elim (Bool-cases (k.kmalloc_enclave h == 0)) [
    | inl t ↦ rw t (returns (record { alive = l; idr = refl; enclave = λ z. absurd (z refl) }))
    | inr f ↦
        let z : k.kmalloc_enclave h ≢ 0 = ground (arith, f) in
        rw f (
          create_with-Made h (k.kmalloc_enclave h) (n % 2 ^ 32) (k.kmalloc_epm h) l
            (none-Unnamed k h.heap h.idr_enclave (k.kmalloc_enclave h) l (pr h z)) z)
  ]

  id_in_range-Alive :
      (h : Host M) (p : ℕ) (o : Option ℕ) (e : KernelEnclave) (epm : Epm)
      → Alive k h
      → Unnamed p h.idr_enclave
      → p ≢ 0
      → h.heap p ≡ some e
      → e.epm ≡ some epm
      → Alive k (id_in_range k o p h).1
  id_in_range-Alive h p none e epm l u z hp he = l
  id_in_range-Alive h p (some i) e epm l u z hp he =
      let new = Live-name k h.heap h.idr_enclave i p e epm l u z hp he in
      elim (Bool-cases (ltb i 0x1000 || leb 0xffff i)) [ inl t ↦ rw t new | inr f ↦ rw f new ]

module _ {M : Type 0} (k : Kernel M) (sm : Monitor M) where
  pub keystone_create_enclave-Alive :
      (a : CreateArg) (h : Host M)
      → Fresh k
      → Alive k h
      → Returns (λ r. Alive k r.2) (keystone_create_enclave k sm a h)
  unfolding keystone_create_enclave create_at enclave_idr_alloc
  keystone_create_enclave-Alive a h pr l =
      Returns-bind (driver_create_enclave-Made k h a.min_pages pr l) λ r m.
        elim (Bool-cases (r.0 == 0)) [
          | inl t ↦ rw t (returns m.alive)
          | inr f ↦
              let z : r.0 ≢ 0 = ground (arith, f) in
              let (e, epm, hp, he, u) = m.enclave z in
              rw (f, hp, he)
                (returns (
                  id_in_range-Alive k r.1 r.0 (k.idr_alloc r.1.idr_enclave) e epm m.alive u z hp
                    he))
        ]
