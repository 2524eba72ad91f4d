-- ===== src/Rt/Table/Store.antt =====
-- Stores around page tables and to their last level.
use keystone_workspace.Base.{
  ℕ, zero, suc, ◌+◌, ◌-◌, ◌*◌, ◌/◌, ◌%◌, ◌^◌, ◌<◌, ◌≡◌, inl, inr, refl, sym, ◌∙◌, ap, arith,
  Bool-cases,
}
use keystone_workspace.Rt.Words.{Mem}
use keystone_workspace.Rt.Table.{found, walk_loop, pte_valid, pt_index, table_of}
use keystone_workspace.Rt.Table.Entries.{pt_index_lt, pt_index_lem}
use keystone_workspace.Rt.Table.Walk.{
  Tables, walk-valid, walk-invalid, walk-last, found-injective, found≢missing, entry_injective,
}

-- The page of an address, as far as the tables tell addresses apart.
abbrev pub page_number : ℕ → ℕ
page_number x = x / 4096 % 2 ^ 27

-- The indices of two addresses from level `3 - k` on.
abbrev pub SameWay : ℕ → ℕ → ℕ → Type 0
SameWay zero x y = pt_index x 3 ≡ pt_index y 3
SameWay (suc k) x y = (pt_index x (3 - suc k) ≡ pt_index y (3 - suc k)) × SameWay k x y

pub SameWay-page : (x y : ℕ) → SameWay 2 x y → page_number x ≡ page_number y
SameWay-page x y (a, (b, c)) = omega (
  arith,
  pt_index_lem x 1,
  pt_index_lem x 2,
  pt_index_lem x 3,
  pt_index_lem y 1,
  pt_index_lem y 2,
  pt_index_lem y 3,
)

pub page-SameWay : (x y : ℕ) → page_number x ≡ page_number y → SameWay 2 x y
page-SameWay x y e = (
  omega (arith, pt_index_lem x 1, pt_index_lem y 1),
  (
    omega (arith, pt_index_lem x 2, pt_index_lem y 2),
    omega (arith, pt_index_lem x 3, pt_index_lem y 3),
  ),
)

module _ (load_pa : ℕ) (m : Mem) (level slot : ℕ → ℕ) (tables : Tables load_pa m level slot) where
  -- The words of the tables above the last level are the same.
  abbrev pub Inner : Mem → Type 0
  Inner m1 = (u j : ℕ) → 0 < level u → level u < 3 → j < 512 → m1 (u + 8 * j) ≡ m (u + 8 * j)

  pub walk-Inner :
      (m1 : Mem) (k u x : ℕ)
      → Inner m1
      → 0 < level u
      → level u + k ≡ 3
      → walk_loop load_pa k m1 u x ≡ walk_loop load_pa k m u x
  walk-Inner m1 zero u x i l d = walk-last load_pa m1 u x ∙ sym (walk-last load_pa m u x)
  walk-Inner m1 (suc k) u x i l d =
      let j = pt_index x (3 - suc k) in
      let b = pt_index_lt x (3 - suc k) in
      let e = i u j l (omega (arith, d)) b in
      elim (Bool-cases (pte_valid (m (u + 8 * j)))) [
        | inl v ↦
            let c = tables.child u j l (omega (arith, d)) b v in
            rw (walk-valid load_pa k m u x v, walk-valid load_pa k m1 u x (ap pte_valid e ∙ v), e)
              (walk-Inner m1 k (table_of load_pa (m (u + 8 * j))) x i (omega (arith, c.0))
                (omega (arith, c.0)))
        | inr v ↦
            walk-invalid load_pa k m1 u x (ap pte_valid e ∙ v)
            ∙ sym (walk-invalid load_pa k m u x v)
      ]

  pub Inner-Tables : (m1 : Mem) → Inner m1 → Tables load_pa m1 level slot
  Inner-Tables m1 i = record {
    aligned = tables.aligned;
    nonnull = tables.nonnull;
    depth = tables.depth;
    child = λ u j l h b v.
        let e = i u j l h b in rw e (tables.child u j l h b (sym (ap pte_valid e) ∙ v));
  }

  -- A walk ends in a table of the last level.
  pub walk-End :
      (k u x b : ℕ)
      → 0 < level u
      → level u + k ≡ 3
      → walk_loop load_pa k m u x ≡ found b
      → (t : ℕ) × (level t ≡ 3) × (b ≡ t + 8 * pt_index x 3)
  walk-End zero u x b l d w = (
    u,
    omega (arith, d),
    found-injective b (u + 8 * pt_index x 3) (sym w ∙ walk-last load_pa m u x),
  )
  walk-End (suc k) u x b l d w =
      let j = pt_index x (3 - suc k) in
      elim (Bool-cases (pte_valid (m (u + 8 * j)))) [
        | inl v ↦
            let c = tables.child u j l (omega (arith, d)) (pt_index_lt x (3 - suc k)) v in
            walk-End k (table_of load_pa (m (u + 8 * j))) x b (omega (arith, c.0))
              (omega (arith, c.0)) (sym (walk-valid load_pa k m u x v) ∙ w)
        | inr v ↦ absurd (found≢missing b (u + 8 * j) (sym w ∙ walk-invalid load_pa k m u x v))
      ]

  -- Two walks to one entry are the same way.
  pub walk-SameWay :
      (k u t x y b : ℕ)
      → 0 < level u
      → 0 < level t
      → level u + k ≡ 3
      → level t + k ≡ 3
      → walk_loop load_pa k m u x ≡ found b
      → walk_loop load_pa k m t y ≡ found b
      → (u ≡ t) × SameWay k x y
  walk-SameWay zero u t x y b lu lt du dt wu wt =
      entry_injective u t (pt_index x 3) (pt_index y 3) (tables.aligned u lu) (tables.aligned t lt)
        (pt_index_lt x 3) (pt_index_lt y 3)
        (found-injective (u + 8 * pt_index x 3) (t + 8 * pt_index y 3)
          (sym (walk-last load_pa m u x) ∙ wu ∙ sym wt ∙ walk-last load_pa m t y))
  walk-SameWay (suc k) u t x y b lu lt du dt wu wt =
      let i = pt_index x (3 - suc k) in
      let j = pt_index y (3 - suc k) in
      let bi = pt_index_lt x (3 - suc k) in
      let bj = pt_index_lt y (3 - suc k) in
      elim (Bool-cases (pte_valid (m (u + 8 * i)))) [
        | inr v ↦ absurd (found≢missing b (u + 8 * i) (sym wu ∙ walk-invalid load_pa k m u x v))
        | inl v ↦ elim (Bool-cases (pte_valid (m (t + 8 * j)))) [
          | inr w ↦ absurd (found≢missing b (t + 8 * j) (sym wt ∙ walk-invalid load_pa k m t y w))
          | inl w ↦
              let c = tables.child u i lu (omega (arith, du)) bi v in
              let d = tables.child t j lt (omega (arith, dt)) bj w in
              let (q, r) =
                walk-SameWay k (table_of load_pa (m (u + 8 * i))) (table_of load_pa (m (t + 8 * j)))
                  x y b (omega (arith, c.0)) (omega (arith, d.0)) (omega (arith, c.0))
                  (omega (arith, d.0)) (sym (walk-valid load_pa k m u x v) ∙ wu)
                  (sym (walk-valid load_pa k m t y w) ∙ wt) in
              let same =
                entry_injective u t i j (tables.aligned u lu) (tables.aligned t lt) bi bj
                  (sym c.1 ∙ ap slot q ∙ d.1) in
              (same.0, (same.1, r))
        ]
      ]

  pub SameWay-walk :
      (k u x y : ℕ) → SameWay k x y → walk_loop load_pa k m u x ≡ walk_loop load_pa k m u y
  unfolding walk_loop
  SameWay-walk zero u x y s = rw s refl
  SameWay-walk (suc k) u x y (e, s) =
      rw (e, SameWay-walk k (table_of load_pa (m (u + 8 * pt_index y (3 - suc k)))) x y s) refl
