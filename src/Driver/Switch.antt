-- ===== src/Driver/Switch.antt =====
-- The switch of the ioctls on a table whose ids name live enclaves.
use keystone_workspace.Base.{
  ℕ, ◌%◌, ◌^◌, ◌≡◌, ◌≢◌, ◌⊎◌, inl, inr, sym, subst, false, ltb, ◌==◌, some, Bool-cases,
  Option-cases, arith,
}
use keystone_workspace.Base.Outcome.{◌>>=◌, Returns, returns, Returns-bind}
use keystone_workspace.Driver.State.{
  Code, ok, enomem, einval, enosys, efault, KernelEnclave, Host, Monitor, Kernel,
}
use keystone_workspace.Driver.Enclaves.{deref}
use keystone_workspace.Driver.Ioctl.{
  destroy_by_id, destroy_with, destroy_answer, keystone_destroy_enclave, closed,
  keystone_run_enclave, keystone_resume_enclave, Command, create, finalize, destroy, run, resume,
  init_utm, other, switch,
}
use keystone_workspace.Driver.Live.{driver_destroy_enclave-Freed, Live-remove}
use keystone_workspace.Driver.Steps.{Fresh, Alive}
use keystone_workspace.Driver.Requests.{
  Dangling, keystone_finalize_enclave-Alive, run_at-Alive, utm_init_ioctl-Alive,
}
use keystone_workspace.Driver.Commands.{keystone_create_enclave-Alive}

module _ {M : Type 0} (k : Kernel M) (sm : Monitor M) where
  -- The monitor's answer to destroy: the enclave is taken away, or the request fails.
  destroy_answer-Alive :
      (ueid p : ℕ) (e : KernelEnclave) (h : Host M) (m : (ℕ × ℕ) × M)
      → Alive k h
      → p ≢ 0
      → h.idr_enclave (ueid % 2 ^ 32) ≡ some p
      → h.heap p ≡ some e
      → Returns (λ r. Alive k r.1) (destroy_answer k sm ueid p h m)
  destroy_answer-Alive ueid p e h ((error, value), m) l n hi hp = elim (Bool-cases (error == 0)) [
    | inl t ↦ rw t (
        Returns-bind (driver_destroy_enclave-Freed k (record h { monitor = m }) p e n hp) λ r d.
          returns
            (rw (d.1.heap, d.1.idr) (Live-remove k h.heap h.idr_enclave (ueid % 2 ^ 32) p l hi)))
    | inr f ↦ rw f (returns l)
  ]

  destroy_with-Alive :
      (ueid p : ℕ) (e : KernelEnclave) (h : Host M)
      → Alive k h
      → p ≢ 0
      → h.idr_enclave (ueid % 2 ^ 32) ≡ some p
      → h.heap p ≡ some e
      → Returns (λ r. Alive k r.1) (destroy_with k sm ueid p h e)
  destroy_with-Alive ueid p e h l n hi hp =
      let t : ltb e.eid 0 ≡ false = ground arith in
      rw t (destroy_answer-Alive ueid p e h (sm.destroy_call e.eid h.monitor) l n hi hp)

  pub destroy_by_id-Alive :
      (ueid : ℕ) (h : Host M) → Alive k h → Returns (λ r. Alive k r.1) (destroy_by_id k sm ueid h)
  unfolding destroy_by_id
  destroy_by_id-Alive ueid h l = elim (Option-cases (h.idr_enclave (ueid % 2 ^ 32))) [
    | inl z ↦ rw z (returns l)
    | inr (p, hi) ↦
        let (e, epm, n, hp, he) = l.live (ueid % 2 ^ 32) p hi in
        rw hi (
          subst (λ o. Returns (λ r. Alive k r.1) (deref o >>= destroy_with k sm ueid p h)) (sym hp)
            (destroy_with-Alive ueid p e h l n hi hp))
  ]

  closed-Alive : (r : Code × Host M) → Alive k r.1 → Returns (λ x. Alive k x.1) (closed k sm r)
  closed-Alive (ok, h) l = returns l
  closed-Alive (enomem, h) l = returns l
  closed-Alive (einval, h) l = returns l
  closed-Alive (enosys, h) l = returns l
  closed-Alive (efault, h) l = returns l

  -- The request was to finalize an enclave, it was refused, and its id names a freed enclave.
  abbrev pub LeftDangling : Command → Code × Host M → Type 0
  LeftDangling (finalize a) (code, h) = (code ≡ einval) × Dangling k sm a.eid h
  LeftDangling _ r = ⊥

  -- If kmalloc gives memory that is not in use, then every ioctl returns on a table in which every
  -- id names an enclave that has its epm and has not been freed, and no two ids the same one. The
  -- table stays so, or the ioctl was to finalize an enclave, it gave -EINVAL, and the id of that
  -- enclave now names one that has been freed.
  pub switch-Alive :
      (c : Command) (h : Host M)
      → Fresh k
      → Alive k h
      → Returns
          (λ r. let (code, c1, h1) = r in Alive k h1 ⊎ LeftDangling c (code, h1))
          (switch k sm c h)
  unfolding switch keystone_destroy_enclave keystone_run_enclave keystone_resume_enclave
  switch-Alive (create a) h fr l =
      Returns-bind (keystone_create_enclave-Alive k sm a h fr l) λ r m. returns (inl m)
  switch-Alive (finalize a) h fr l =
      Returns-bind (keystone_finalize_enclave-Alive k sm a h l) λ r m. returns m
  switch-Alive (destroy a) h fr l =
      Returns-bind (Returns-bind (destroy_by_id-Alive a.eid h l) closed-Alive)
        λ r m. returns (inl m)
  switch-Alive (run a) h fr l =
      Returns-bind (run_at-Alive k sm sm.run_call a h l) λ r m. returns (inl m)
  switch-Alive (resume a) h fr l =
      Returns-bind (run_at-Alive k sm sm.resume_call a h l) λ r m. returns (inl m)
  switch-Alive (init_utm a) h fr l =
      Returns-bind (utm_init_ioctl-Alive k sm a h l) λ r m. returns (inl m)
  switch-Alive other h fr l = returns (inl l)
