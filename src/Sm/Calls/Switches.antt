-- ===== src/Sm/Calls/Switches.antt =====
-- A hart enters the context of an enclave, or leaves it (sm/src/enclave.c).
use native.Mathlib.Decide.{ℕ_discrete}
use keystone_workspace.Base.{
  ℕ, ◌≡◌, ◌≢◌, ◌∙◌, sym, ap, subst, true, false, arith, update, update_self, update_ne,
}
use keystone_workspace.Sm.State.{running, Enclave, CpuState}
use keystone_workspace.Sm.Calls.{Exclusive}

update_all {ℓ} :
    {A : Type ℓ} (P : ℕ → A → Type 0) (f : ℕ → A) (i : ℕ) (v : A)
    → P i v
    → ((j : ℕ) → i ≢ j → P j (f j))
    → (j : ℕ) → P j (update f i v j)
update_all P f i v h k j = elim (ℕ_discrete i j) [
  | yes q ↦ subst (λ (l : ℕ). P l (update f i v l)) q (subst (P i) (sym (update_self f i v)) h)
  | no q ↦ subst (P j) (sym (update_ne f i j v q)) (k j q)
]

-- A running enclave has one thread, any other none.
abbrev Threads : ℕ → Enclave → Type 0
Threads j e = (e.state ≡ running → e.n_thread ≡ 1) × (e.state ≢ running → e.n_thread ≡ 0)

module _ {en : ℕ → Enclave} {cp : ℕ → CpuState} (x : Exclusive en cp) where
  threads : (eid : ℕ) (e : Enclave) → Threads eid e → (j : ℕ) → Threads j (update en eid e j)
  threads eid e h = update_all Threads en eid e h (λ j n. (x.counted j, x.idle j))

  -- An enclave changes that no hart is in, and does not run.
  pub changed-Exclusive :
      (eid : ℕ) (e : Enclave)
      → (en eid).state ≢ running
      → e.state ≢ running
      → e.n_thread ≡ 0
      → Exclusive (update en eid e) cp
  changed-Exclusive eid e was now none =
      let all = threads eid e (λ r. absurd (now r), λ r. none) in
      record {
        alone = x.alone;
        runs = λ k i.
            let n : eid ≢ (cp k).eid = λ q. was (ap (λ (j : ℕ). (en j).state) q ∙ x.runs k i) in
            ap (λ (y : Enclave). y.state) (update_ne en eid (cp k).eid e n) ∙ x.runs k i;
        counted = λ j. (all j).0;
        idle = λ j. (all j).1;
      }

  -- A hart enters an enclave that did not run.
  pub enters-Exclusive :
      (hart eid : ℕ) (e : Enclave)
      → (en eid).state ≢ running
      → e.state ≡ running
      → e.n_thread ≡ 1
      → Exclusive (update en eid e) (update cp hart (record { is_enclave = true; eid = eid }))
  enters-Exclusive hart eid e was now one =
      let all = threads eid e (λ r. one, λ r. absurd (r now)) in
      record {
        alone = λ k l. elim (ℕ_discrete hart k) [
          | yes q ↦ elim (ℕ_discrete hart l) [
            | yes r ↦ λ i j s. sym q ∙ r
            | no r ↦ rw (inside k q, cp' l r) (λ i j s. absurd (elsewhere l j s))
          ]
          | no q ↦ elim (ℕ_discrete hart l) [
            | yes r ↦ rw (inside l r, cp' k q) (λ i j s. absurd (elsewhere k i (sym s)))
            | no r ↦ rw (cp' k q, cp' l r) (x.alone k l)
          ]
        ];
        runs = λ k. elim (ℕ_discrete hart k) [
          | yes q ↦
              rw (inside k q) (λ i. ap (λ (y : Enclave). y.state) (update_self en eid e) ∙ now)
          | no q ↦ rw (cp' k q) (λ i.
              ap (λ (y : Enclave). y.state) (update_ne en eid (cp k).eid e (elsewhere k i))
              ∙ x.runs k i)
        ];
        counted = λ j. (all j).0;
        idle = λ j. (all j).1;
      }
    where
      cpu : CpuState
      cpu = record { is_enclave = true; eid = eid }

      inside : (k : ℕ) → hart ≡ k → update cp hart cpu k ≡ cpu
      inside k q = subst (λ (l : ℕ). update cp hart cpu l ≡ cpu) q (update_self cp hart cpu)

      cp' : (k : ℕ) → hart ≢ k → update cp hart cpu k ≡ cp k
      cp' k q = update_ne cp hart k cpu q

      elsewhere : (k : ℕ) → (cp k).is_enclave ≡ true → eid ≢ (cp k).eid
      elsewhere k i q = was (ap (λ (j : ℕ). (en j).state) q ∙ x.runs k i)

  -- A hart leaves the enclave that it is in, which then does not run.
  pub leaves-Exclusive :
      (hart : ℕ) (e : Enclave)
      → (cp hart).is_enclave ≡ true
      → e.state ≢ running
      → e.n_thread ≡ 0
      → Exclusive
          (update en (cp hart).eid e)
          (update cp hart (record (cp hart) { is_enclave = false }))
  leaves-Exclusive hart e inn now none =
      let all = threads (cp hart).eid e (λ r. absurd (now r), λ r. none) in
      record {
        alone = λ k l i j s.
            let p = stays k i in
            let q = stays l j in
            x.alone k l p.2 q.2
              (sym (ap (λ (y : CpuState). y.eid) p.1) ∙ s ∙ ap (λ (y : CpuState). y.eid) q.1);
        runs = λ k i.
            let p = stays k i in
            let n : (cp hart).eid ≢ (cp k).eid = λ q. p.0 (x.alone hart k inn p.2 q) in
            ap (λ (y : CpuState). (update en (cp hart).eid e y.eid).state) p.1
            ∙ ap (λ (y : Enclave). y.state) (update_ne en (cp hart).eid (cp k).eid e n)
            ∙ x.runs k p.2;
        counted = λ j. (all j).0;
        idle = λ j. (all j).1;
      }
    where
      cpu : CpuState
      cpu = record (cp hart) { is_enclave = false }

      stays :
          (k : ℕ)
          → (update cp hart cpu k).is_enclave ≡ true
          → (hart ≢ k) × (update cp hart cpu k ≡ cp k) × ((cp k).is_enclave ≡ true)
      stays k i = elim (ℕ_discrete hart k) [
        | yes q ↦
            let out : (update cp hart cpu k).is_enclave ≡ false =
              subst (λ (l : ℕ). (update cp hart cpu l).is_enclave ≡ false) q
                (ap (λ (y : CpuState). y.is_enclave) (update_self cp hart cpu)) in
            absurd (ground arith)
        | no q ↦
            let same = update_ne cp hart k cpu q in
            (q, same, sym (ap (λ (y : CpuState). y.is_enclave) same) ∙ i)
      ]
