-- ===== src/Rt/Table/Grow.antt =====
-- A memory with one table more: an entry that was not valid leads to a page of zeros.
use keystone_workspace.Base.{
  ℕ, zero, suc, ◌+◌, ◌-◌, ◌*◌, ◌%◌, ◌<◌, ◌≡◌, ◌≢◌, inl, inr, refl, sym, ◌∙◌, ap, true, false, ◌==◌,
  arith, update, update_self, update_ne, none, Bool-cases, ==_iff,
}
use keystone_workspace.Rt.Words.{Mem, clear_page}
use keystone_workspace.Rt.Table.{missing, walk_loop, pte_valid, pt_index, table_of}
use keystone_workspace.Rt.Table.Entries.{pt_index_lt, pte_valid_lem}
use keystone_workspace.Rt.Table.Walk.{
  Tables, found≢missing, missing-injective, entry_injective, leaf, needs, walk-valid, walk-invalid,
  walk-last, needs-valid, needs-invalid,
}

true≢false : true ≢ false
true≢false q = cc

zero_invalid : pte_valid 0 ≡ false
zero_invalid = pte_valid_lem 0

module _ (load_pa : ℕ) (m : Mem) (level slot : ℕ → ℕ) (tables : Tables load_pa m level slot)
    (t idx p e : ℕ) (has_level : 0 < level t) (inner : level t < 3) (in_table : idx < 512)
    (free_slot : pte_valid (m (t + 8 * idx)) ≡ false) (page : p % 4096 ≡ 0) (real : 0 < p)
    (no_table : level p ≡ 0) (leads : table_of load_pa e ≡ p) (valid : pte_valid e ≡ true) where
  abbrev pub grown : Mem
  grown = update (clear_page m p) (t + 8 * idx) e

  grown-other :
      (u j : ℕ)
      → 0 < level u
      → j < 512
      → u + 8 * j ≢ t + 8 * idx
      → grown (u + 8 * j) ≡ m (u + 8 * j)
  grown-other u j l b n =
      let al = tables.aligned u l in
      let apart : u ≢ p = λ q. absurd (omega (arith, l, no_table, ap level q)) in ground arith

  grown-new : (j : ℕ) → j < 512 → grown (p + 8 * j) ≡ 0
  grown-new j b =
      let al = tables.aligned t has_level in
      let apart : t ≢ p = λ q. absurd (omega (arith, has_level, no_table, ap level q)) in
      ground arith

  leaf-new : (k addr : ℕ) → leaf load_pa k grown p addr ≡ none
  leaf-new zero addr =
      rw
        (
          walk-last load_pa grown p addr,
          grown-new (pt_index addr 3) (pt_index_lt addr 3),
          zero_invalid,
        )
        refl
  leaf-new (suc k) addr =
      let w = grown-new (pt_index addr (3 - suc k)) (pt_index_lt addr (3 - suc k)) in
      rw (walk-invalid load_pa k grown p addr (ap pte_valid w ∙ zero_invalid)) refl

  needs-new : (k addr : ℕ) → needs load_pa k grown p addr ≡ k
  unfolding needs
  needs-new zero addr = refl
  needs-new (suc k) addr =
      let w = grown-new (pt_index addr (3 - suc k)) (pt_index_lt addr (3 - suc k)) in
      needs-invalid load_pa k grown p addr (ap pte_valid w ∙ zero_invalid)

  grown-slot : grown (t + 8 * idx) ≡ e
  grown-slot = ground arith

  grown-valid :
      (u j : ℕ)
      → 0 < level u
      → j < 512
      → pte_valid (m (u + 8 * j)) ≡ true
      → grown (u + 8 * j) ≡ m (u + 8 * j)
  grown-valid u j l b v =
      grown-other u j l b (λ q. true≢false (sym v ∙ ap (λ (a : ℕ). pte_valid (m a)) q ∙ free_slot))

  -- What a walk finds is as before.
  pub leaf-grown :
      (k u addr : ℕ)
      → 0 < level u
      → level u + k ≡ 3
      → leaf load_pa k grown u addr ≡ leaf load_pa k m u addr
  leaf-grown zero u addr l d =
      let n : u + 8 * pt_index addr 3 ≢ t + 8 * idx = λ q.
        let al = tables.aligned u l in
        let at = tables.aligned t has_level in
        absurd (
          omega (
            arith,
            d,
            inner,
            ap level
                (entry_injective u t (pt_index addr 3) idx al at (pt_index_lt addr 3) in_table q).0,
          )) in
      rw
        (
          walk-last load_pa grown u addr,
          walk-last load_pa m u addr,
          grown-other u (pt_index addr 3) l (pt_index_lt addr 3) n,
        )
        refl
  leaf-grown (suc k) u addr l d =
      let j = pt_index addr (3 - suc k) in
      let b = pt_index_lt addr (3 - suc k) in
      elim (Bool-cases (pte_valid (m (u + 8 * j)))) [
        | inl v ↦
            let s = grown-valid u j l b v in
            let c = tables.child u j l (omega arith) b v in
            rw
              (
                walk-valid load_pa k m u addr v,
                walk-valid load_pa k grown u addr (ap pte_valid s ∙ v),
                s,
              )
              (leaf-grown k (table_of load_pa (m (u + 8 * j))) addr (omega (arith, c.0))
                (omega (arith, c.0)))
        | inr v ↦ elim (Bool-cases (u + 8 * j == t + 8 * idx)) [
          | inl q ↦
              let s : grown (u + 8 * j) ≡ e =
                ap grown ((==_iff (u + 8 * j) (t + 8 * idx)).0 q) ∙ grown-slot in
              rw
                (
                  walk-invalid load_pa k m u addr v,
                  walk-valid load_pa k grown u addr (ap pte_valid s ∙ valid),
                  s,
                  leads,
                )
                (leaf-new k addr)
          | inr q ↦
              let s = grown-other u j l b (ground (arith, q)) in
              rw
                (
                  walk-invalid load_pa k m u addr v,
                  walk-invalid load_pa k grown u addr (ap pte_valid s ∙ v),
                )
                refl
        ]
      ]

  -- A walk that ended at the entry needs one table less.
  pub needs-grown :
      (k u addr : ℕ)
      → 0 < level u
      → level u + k ≡ 3
      → walk_loop load_pa k m u addr ≡ missing (t + 8 * idx)
      → needs load_pa k grown u addr + 1 ≡ needs load_pa k m u addr
  needs-grown zero u addr l d w =
      absurd (
        found≢missing (u + 8 * pt_index addr 3) (t + 8 * idx)
          (sym (walk-last load_pa m u addr) ∙ w))
  needs-grown (suc k) u addr l d w =
      let j = pt_index addr (3 - suc k) in
      let b = pt_index_lt addr (3 - suc k) in
      elim (Bool-cases (pte_valid (m (u + 8 * j)))) [
        | inl v ↦
            let s = grown-valid u j l b v in
            let c = tables.child u j l (omega arith) b v in
            let w' = sym (walk-valid load_pa k m u addr v) ∙ w in
            rw
              (
                needs-valid load_pa k m u addr v,
                needs-valid load_pa k grown u addr (ap pte_valid s ∙ v),
                s,
              )
              (needs-grown k (table_of load_pa (m (u + 8 * j))) addr (omega (arith, c.0))
                (omega (arith, c.0)) w')
        | inr v ↦
            let q =
              missing-injective (u + 8 * j) (t + 8 * idx)
                (sym (walk-invalid load_pa k m u addr v) ∙ w) in
            let s : grown (u + 8 * j) ≡ e = ap grown q ∙ grown-slot in
            rw
              (
                needs-invalid load_pa k m u addr v,
                needs-valid load_pa k grown u addr (ap pte_valid s ∙ valid),
                s,
                leads,
                needs-new k addr,
              )
              (omega arith)
      ]

  -- The levels and the entries with the new table.
  abbrev pub level_grown : ℕ → ℕ
  level_grown = update level p (level t + 1)

  abbrev pub slot_grown : ℕ → ℕ
  slot_grown = update slot p (t + 8 * idx)

  level-other : (u : ℕ) → 0 < level u → level_grown u ≡ level u
  level-other u l =
      let n : p ≢ u = λ q. absurd (omega (arith, l, no_table, ap level q)) in
      update_ne level p u (level t + 1) n

  child-grown :
      (u j : ℕ)
      → 0 < level u
      → level u < 3
      → j < 512
      → pte_valid (grown (u + 8 * j)) ≡ true
      → (level_grown (table_of load_pa (grown (u + 8 * j))) ≡ level u + 1)
        × (slot_grown (table_of load_pa (grown (u + 8 * j))) ≡ u + 8 * j)
  child-grown u j l i b v = elim (Bool-cases (u + 8 * j == t + 8 * idx)) [
    | inl q ↦
        let w = (==_iff (u + 8 * j) (t + 8 * idx)).0 q in
        let s : grown (u + 8 * j) ≡ e = ap grown w ∙ grown-slot in
        let same =
          entry_injective u t j idx (tables.aligned u l) (tables.aligned t has_level) b in_table
            w in
        rw
          (s, leads, update_self level p (level t + 1), update_self slot p (t + 8 * idx), w, same.0)
          (refl, refl)
    | inr q ↦
        let s = grown-other u j l b (ground (arith, q)) in
        let c = tables.child u j l i b (sym (ap pte_valid s) ∙ v) in
        let n : p ≢ table_of load_pa (m (u + 8 * j)) =
          λ r. absurd (omega (arith, c.0, no_table, ap level r)) in
        rw
          (
            s,
            update_ne level p (table_of load_pa (m (u + 8 * j))) (level t + 1) n,
            update_ne slot p (table_of load_pa (m (u + 8 * j))) (t + 8 * idx) n,
          )
          c
  ]

  pub grown-Tables : Tables load_pa grown level_grown slot_grown
  grown-Tables = record {
    aligned = λ u l. elim (Bool-cases (p == u)) [
      | inl q ↦ let r = (==_iff p u).0 q in rw (sym r) page
      | inr q ↦ tables.aligned u (ground (arith, q, l))
    ];
    nonnull = λ u l. elim (Bool-cases (p == u)) [
      | inl q ↦ let r = (==_iff p u).0 q in rw (sym r) real
      | inr q ↦ tables.nonnull u (ground (arith, q, l))
    ];
    depth = λ u. ground (arith, tables.depth u, inner);
    child = λ u j l i b v. elim (Bool-cases (p == u)) [
      | inl q ↦
          let r = (==_iff p u).0 q in
          absurd (
            true≢false (
              sym v
              ∙ ap (λ (x : ℕ). pte_valid (grown (x + 8 * j))) (sym r)
              ∙ ap pte_valid (grown-new j b)
              ∙ zero_invalid))
      | inr q ↦
          let o : level_grown u ≡ level u = ground (arith, q) in
          rw o (child-grown u j (ground (arith, q, l)) (ground (arith, q, i)) b v)
    ];
  }
