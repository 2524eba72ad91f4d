-- ===== src/Driver/Requests.antt =====
-- Finalize, run, resume and the shared memory on a table whose ids name live enclaves.
use keystone_workspace.Base.{
  ℕ, ◌%◌, ◌^◌, ◌≡◌, ◌≢◌, ◌⊎◌, inl, inr, refl, sym, ap, subst, ◌∙◌, false, ltb, ◌==◌, update_self,
  Option, none, some, Bool-cases, Option-cases, arith,
}
use keystone_workspace.Base.Outcome.{Returns, returns, Returns-bind, Returns-map}
use keystone_workspace.Driver.State.{
  Code, einval, Epm, Utm, KernelEnclave, CreateArg, RunArg, Host, Monitor, Kernel,
}
use keystone_workspace.Driver.Pages.{utm_init}
use keystone_workspace.Driver.Enclaves.{put_enclave}
use keystone_workspace.Driver.Ioctl.{
  finalize_answer, finalize_epm, keystone_finalize_enclave, run_at, utm_init_ioctl, utm_done,
  create_args, utm_pregion,
}
use keystone_workspace.Driver.Live.{Freed, driver_destroy_enclave-Freed}
use keystone_workspace.Driver.Steps.{Alive, Kept, Live-store, utm_init-Kept}

module _ {M : Type 0} (k : Kernel M) (sm : Monitor M) where
  -- The id names an enclave that has been freed.
  abbrev pub Dangling : ℕ → Host M → Type 0
  Dangling id h = (p : ℕ) × (h.idr_enclave (id % 2 ^ 32) ≡ some p) × (h.heap p ≡ none)

  pub finalize_answer-Alive :
      (id p : ℕ) (e : KernelEnclave) (epm : Epm) (h : Host M) (m : (ℕ × ℕ) × M)
      → Alive k h
      → p ≢ 0
      → h.idr_enclave (id % 2 ^ 32) ≡ some p
      → h.heap p ≡ some e
      → e.epm ≡ some epm
      → Returns
          (λ r. Alive k r.1 ⊎ ((m.0.0 ≢ 0) × (r.0 ≡ einval) × Dangling id r.1))
          (finalize_answer k sm p e h m)
  unfolding finalize_answer
  finalize_answer-Alive id p e epm h ((error, value), m) l n hi hp he =
      elim (Bool-cases (error == 0)) [
        | inl t ↦ rw t (
            returns (inl (Live-store k h.heap h.idr_enclave p (record e { eid = value }) epm l he)))
        | inr f ↦
            let bad : error ≢ 0 = ground (arith, f) in
            rw f (
              Returns-bind (driver_destroy_enclave-Freed k (record h { monitor = m }) p e n hp)
                λ r d. returns (
                  inr (
                    bad,
                    refl,
                    (
                      p,
                      ap (λ (t : ℕ → Option ℕ). t (id % 2 ^ 32)) d.1.idr ∙ hi,
                      ap (λ (t : ℕ → Option KernelEnclave). t p) d.1.heap
                          ∙ update_self h.heap p none,
                    ),
                  )))
      ]

  finalize_epm-Alive :
      (a : CreateArg) (h : Host M) (p : ℕ) (e : KernelEnclave) (epm : Epm)
      → Alive k h
      → p ≢ 0
      → h.idr_enclave (a.eid % 2 ^ 32) ≡ some p
      → e.epm ≡ some epm
      → Returns
          (λ r. Alive k r.1 ⊎ ((r.0 ≡ einval) × Dangling a.eid r.1))
          (finalize_epm k sm a p e h (some epm))
  finalize_epm-Alive a h p e epm l n hi he =
      let e1 = record e { is_init = false } in
      Returns-map (λ r w. elim w [ inl x ↦ inl x | inr x ↦ inr (x.1, x.2) ])
        (finalize_answer-Alive a.eid p e1 epm (put_enclave k h p e1)
          (sm.create_call (create_args k sm a epm (utm_pregion k sm e.utm)) h.monitor)
          (Live-store k h.heap h.idr_enclave p e1 epm l he) n hi (update_self h.heap p (some e1))
          he)

  pub keystone_finalize_enclave-Alive :
      (a : CreateArg) (h : Host M)
      → Alive k h
      → Returns
          (λ r. Alive k r.1 ⊎ ((r.0 ≡ einval) × Dangling a.eid r.1))
          (keystone_finalize_enclave k sm a h)
  unfolding keystone_finalize_enclave
  keystone_finalize_enclave-Alive a h l = elim (Option-cases (h.idr_enclave (a.eid % 2 ^ 32))) [
    | inl z ↦ rw z (returns (inl l))
    | inr (p, hi) ↦
        let (e, epm, n, hp, he) = l.live (a.eid % 2 ^ 32) p hi in
        rw (hi, hp)
          (subst
            (λ o.
              Returns (λ r. Alive k r.1 ⊎ ((r.0 ≡ einval) × Dangling a.eid r.1))
                (finalize_epm k sm a p e h o))
            (sym he) (finalize_epm-Alive a h p e epm l n hi he))
  ]

  pub run_at-Alive :
      (call : ℕ → M → (ℕ × ℕ) × M) (a : RunArg) (h : Host M)
      → Alive k h
      → Returns (λ r. Alive k r.2) (run_at k sm call a (h.idr_enclave (a.eid % 2 ^ 32)) h)
  run_at-Alive call a h l = elim (Option-cases (h.idr_enclave (a.eid % 2 ^ 32))) [
    | inl z ↦ rw z (returns l)
    | inr (p, hi) ↦
        let (e, epm, n, hp, he) = l.live (a.eid % 2 ^ 32) p hi in
        let t : ltb e.eid 0 ≡ false = ground arith in rw (hi, hp, t) (returns l)
  ]

  utm_done-Alive :
      (a : CreateArg) (p : ℕ) (e : KernelEnclave) (epm : Epm) (h : Host M) (r : Code × Utm × Host M)
      → Alive k h
      → Kept k h r.2
      → e.epm ≡ some epm
      → Returns (λ x. Alive k x.2) (utm_done k sm a p e r)
  utm_done-Alive a p e epm h (code, utm, h1) l (kh, ki) he =
      returns
        (rw (kh, ki) (Live-store k h.heap h.idr_enclave p (record e { utm = some utm }) epm l he))

  pub utm_init_ioctl-Alive :
      (a : CreateArg) (h : Host M)
      → Alive k h
      → Returns (λ r. Alive k r.2) (utm_init_ioctl k sm a h)
  unfolding utm_init_ioctl
  utm_init_ioctl-Alive a h l = elim (Option-cases (h.idr_enclave (a.eid % 2 ^ 32))) [
    | inl z ↦ rw z (returns l)
    | inr (p, hi) ↦
        let (e, epm, n, hp, he) = l.live (a.eid % 2 ^ 32) p hi in
        elim (Option-cases (k.kmalloc_utm h)) [
          | inl z ↦ rw (hi, hp, z) (returns l)
          | inr (utm, hu) ↦
              rw (hi, hp, hu)
                (utm_done-Alive a p e epm h (utm_init k h utm a.utm_size) l
                  (utm_init-Kept k h utm a.utm_size) he)
        ]
  ]

  Freed-Dangling :
      (id p : ℕ) (h h1 : Host M)
      → h.idr_enclave (id % 2 ^ 32) ≡ some p
      → Freed k p h h1
      → Dangling id h1
  Freed-Dangling id p h h1 hi d = (
    p,
    ap (λ (t : ℕ → Option ℕ). t (id % 2 ^ 32)) d.idr ∙ hi,
    ap (λ (t : ℕ → Option KernelEnclave). t p) d.heap ∙ update_self h.heap p none,
  )

  pub finalize_epm-Refused :
      (a : CreateArg) (h : Host M) (p : ℕ) (e : KernelEnclave) (epm : Epm)
      → p ≢ 0
      → h.idr_enclave (a.eid % 2 ^ 32) ≡ some p
      → (sm.create_call (create_args k sm a epm (utm_pregion k sm e.utm)) h.monitor).0.0 ≢ 0
      → Returns (λ r. (r.0 ≡ einval) × Dangling a.eid r.1) (finalize_epm k sm a p e h (some epm))
  unfolding finalize_answer
  finalize_epm-Refused a h p e epm n hi bad =
      let answer = sm.create_call (create_args k sm a epm (utm_pregion k sm e.utm)) h.monitor in
      let f : (answer.0.0 == 0) ≡ false = ground (arith, bad) in
      let e1 = record e { is_init = false } in
      let h1 = put_enclave k h p e1 in
      rw f (
        Returns-bind
          (driver_destroy_enclave-Freed k (record h1 { monitor = answer.1 }) p e1 n
            (update_self h.heap p (some e1)))
          λ r d.
            returns (refl, Freed-Dangling a.eid p (record h1 { monitor = answer.1 }) r.1 hi d.1))
