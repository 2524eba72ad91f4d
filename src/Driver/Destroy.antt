-- ===== src/Driver/Destroy.antt =====
-- The two ends of an enclave: its destruction, and a finalize that the monitor refuses.
use keystone_workspace.Base.{
  ℕ, ◌%◌, ◌^◌, ◌≡◌, ◌≢◌, ◌⊎◌, inl, inr, refl, sym, ap, subst, false, ltb, ◌==◌, update, Option,
  none, some, Bool-cases, arith,
}
use keystone_workspace.Base.Outcome.{hang, ◌>>=◌, Returns, returns, Returns-bind, Returns-map}
use keystone_workspace.Driver.State.{
  Code, ok, einval, Epm, KernelEnclave, CreateArg, Host, Monitor, Kernel,
}
use keystone_workspace.Driver.Enclaves.{deref}
use keystone_workspace.Driver.Ioctl.{
  finalize_epm, keystone_finalize_enclave, create_args, utm_pregion, destroy_by_id, destroy_with,
  destroy_answer,
}
use keystone_workspace.Driver.Live.{driver_destroy_enclave-Freed}
use keystone_workspace.Driver.Steps.{Alive}
use keystone_workspace.Driver.Requests.{Dangling, finalize_epm-Refused}

module _ {M : Type 0} (k : Kernel M) (sm : Monitor M) where
  -- What destroy does, by the answer of the monitor
  abbrev pub Destroyed : ℕ → ℕ → (ℕ × ℕ) × M → Host M → Code × Host M → Type 0
  Destroyed id p answer h (code, h1) =
      (h1.monitor ≡ answer.1)
      × (((answer.0.0 ≡ 0)
            × (code ≡ ok)
            × (h1.heap ≡ update h.heap p none)
            × (h1.idr_enclave ≡ update h.idr_enclave (id % 2 ^ 32) none))
          ⊎ ((answer.0.0 ≢ 0)
              × (code ≡ einval)
              × (h1.heap ≡ h.heap)
              × (h1.idr_enclave ≡ h.idr_enclave)
              × (h1.blocks ≡ h.blocks)))

  destroy_answer-Destroyed :
      (id p : ℕ) (e : KernelEnclave) (h : Host M) (answer : (ℕ × ℕ) × M)
      → p ≢ 0
      → h.heap p ≡ some e
      → Returns (Destroyed id p answer h) (destroy_answer k sm id p h answer)
  destroy_answer-Destroyed id p e h ((error, value), m) n hp = elim (Bool-cases (error == 0)) [
    | inl t ↦
        let z : error ≡ 0 = ground (arith, t) in
        rw t (
          Returns-bind (driver_destroy_enclave-Freed k (record h { monitor = m }) p e n hp) λ r d.
            returns (
              d.1.monitor,
              inl (
                z,
                refl,
                d.1.heap,
                ap (λ (f : ℕ → Option ℕ). update f (id % 2 ^ 32) none) d.1.idr,
              ),
            ))
    | inr f ↦
        let z : error ≢ 0 = ground (arith, f) in
        rw f (returns (refl, inr (z, refl, refl, refl, refl)))
  ]

  destroy_with-Destroyed :
      (id p : ℕ) (e : KernelEnclave) (h : Host M)
      → p ≢ 0
      → h.heap p ≡ some e
      → Returns (Destroyed id p (sm.destroy_call e.eid h.monitor) h) (destroy_with k sm id p h e)
  destroy_with-Destroyed id p e h n hp =
      let t : ltb e.eid 0 ≡ false = ground arith in
      rw t (destroy_answer-Destroyed id p e h (sm.destroy_call e.eid h.monitor) n hp)

  -- __keystone_destroy_enclave on an id that names an enclave asks the monitor about the id that the
  -- enclave has there, whether it has been finalized or not. If the monitor agrees, the enclave is
  -- freed and its id is free, and no other enclave or id changes; if not, the code is -EINVAL, and of
  -- the enclaves, the ids and the blocks of pages nothing has changed.
  pub destroy_by_id_lem :
      (id p : ℕ) (e : KernelEnclave) (h : Host M)
      → p ≢ 0
      → h.idr_enclave (id % 2 ^ 32) ≡ some p
      → h.heap p ≡ some e
      → Returns (Destroyed id p (sm.destroy_call e.eid h.monitor) h) (destroy_by_id k sm id h)
  unfolding destroy_by_id
  destroy_by_id_lem id p e h n hi hp = rw hi (
      subst
        (λ o.
          Returns (Destroyed id p (sm.destroy_call e.eid h.monitor) h)
            (deref o >>= destroy_with k sm id p h))
        (sym hp) (destroy_with-Destroyed id p e h n hp))

  destroy_by_id-hang : (id : ℕ) (h : Host M) → Dangling k sm id h → destroy_by_id k sm id h ≡ hang
  unfolding destroy_by_id
  destroy_by_id-hang id h (p, hi, hp) = rw (hi, hp) refl

  -- On a table whose ids name enclaves that have not been freed: if the monitor refuses to create the
  -- enclave, keystone_finalize_enclave gives -EINVAL, and to destroy the enclave by its id then uses
  -- an enclave that has been freed.
  pub finalize_refused :
      (a : CreateArg) (h : Host M) (p : ℕ) (e : KernelEnclave) (epm : Epm)
      → Alive k h
      → h.idr_enclave (a.eid % 2 ^ 32) ≡ some p
      → h.heap p ≡ some e
      → e.epm ≡ some epm
      → (sm.create_call (create_args k sm a epm (utm_pregion k sm e.utm)) h.monitor).0.0 ≢ 0
      → Returns
          (λ r. let (code, h1) = r in (code ≡ einval) × (destroy_by_id k sm a.eid h1 ≡ hang))
          (keystone_finalize_enclave k sm a h)
  unfolding keystone_finalize_enclave
  finalize_refused a h p e epm l hi hp he bad =
      let (e1, epm1, n, hp1, he1) = l.live (a.eid % 2 ^ 32) p hi in
      rw (hi, hp)
        (subst
          (λ o.
            Returns (λ r. (r.0 ≡ einval) × (destroy_by_id k sm a.eid r.1 ≡ hang))
              (finalize_epm k sm a p e h o))
          (sym he)
          (Returns-map (λ r w. (w.0, destroy_by_id-hang a.eid r.1 w.1))
            (finalize_epm-Refused k sm a h p e epm n hi bad)))
