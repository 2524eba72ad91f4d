-- ===== src/Rt/Table/Leaf.antt =====
-- The mappings after a store: outside of the tables, and to an entry of the last level.
use keystone_workspace.Base.{
  ℕ, ◌+◌, ◌*◌, ◌<◌, ◌≡◌, ◌≢◌, inl, inr, refl, sym, ◌∙◌, ap, ◌==◌, if◌then◌else◌, arith, update,
  update_self, update_ne, none, some, Bool-cases, ==_iff,
}
use keystone_workspace.Rt.Words.{Mem}
use keystone_workspace.Rt.Table.{found, walk_loop, pte_valid, pt_index}
use keystone_workspace.Rt.Table.Entries.{pt_index_lt}
use keystone_workspace.Rt.Table.Walk.{Tables, leaf, Walked-cases, entry_injective}
use keystone_workspace.Rt.Table.Store.{
  page_number, SameWay-page, page-SameWay, Inner, walk-Inner, Inner-Tables, walk-End, walk-SameWay,
  SameWay-walk,
}

module _ (load_pa : ℕ) (m : Mem) (level slot : ℕ → ℕ) (tables : Tables load_pa m level slot)
    (root : ℕ) (top : level root ≡ 1) where
  -- All words of the tables are the same.
  abbrev pub Outside : Mem → Type 0
  Outside m1 = (u j : ℕ) → 0 < level u → j < 512 → m1 (u + 8 * j) ≡ m (u + 8 * j)

  pub leaf-Outside :
      (m1 : Mem) (x : ℕ) → Outside m1 → leaf load_pa 2 m1 root x ≡ leaf load_pa 2 m root x
  leaf-Outside m1 x o =
      let w =
        walk-Inner load_pa m level slot tables m1 2 root x (λ u j l h b. o u j l b)
          (omega (arith, top)) (omega (arith, top)) in
      elim (Walked-cases (walk_loop load_pa 2 m root x)) [
        | inl (b, f) ↦
            let (t, lt, e) =
              walk-End load_pa m level slot tables 2 root x b (omega (arith, top))
                (omega (arith, top)) f in
            let same : m1 b ≡ m b =
              rw e (o t (pt_index x 3) (omega (arith, lt)) (pt_index_lt x 3)) in
            rw (w, f, same) refl
        | inr (a, f) ↦ rw (w, f) refl
      ]

  pub Outside-Tables : (m1 : Mem) → Outside m1 → Tables load_pa m1 level slot
  Outside-Tables m1 o = Inner-Tables load_pa m level slot tables m1 (λ u j l h b. o u j l b)

  module _ (addr b v : ℕ) (finds : walk_loop load_pa 2 m root addr ≡ found b) where
    store-Inner : Inner load_pa m level slot tables (update m b v)
    store-Inner u j l h i =
        let (t, lt, e) =
          walk-End load_pa m level slot tables 2 root addr b (omega (arith, top))
            (omega (arith, top)) finds in
        let n : b ≢ u + 8 * j = λ q. absurd (
          omega (
            arith,
            lt,
            h,
            ap level
                (entry_injective t u (pt_index addr 3) j (tables.aligned t (omega (arith, lt)))
                  (tables.aligned u l) (pt_index_lt addr 3) i (sym e ∙ q)).0,
          )) in
        update_ne m b (u + 8 * j) v n

    pub store-Tables : Tables load_pa (update m b v) level slot
    store-Tables = Inner-Tables load_pa m level slot tables (update m b v) store-Inner

    store-walk : (x : ℕ) → walk_loop load_pa 2 (update m b v) root x ≡ walk_loop load_pa 2 m root x
    store-walk x =
        walk-Inner load_pa m level slot tables (update m b v) 2 root x store-Inner
          (omega (arith, top)) (omega (arith, top))

    pub store-finds : walk_loop load_pa 2 (update m b v) root addr ≡ found b
    store-finds = store-walk addr ∙ finds

    -- The mapping of the page is the new entry, and those of other pages are as before.
    pub leaf-store :
        (x : ℕ)
        → leaf load_pa 2 (update m b v) root x ≡ (
            if page_number x == page_number addr
            then if pte_valid v then some v else none
            else leaf load_pa 2 m root x)
    leaf-store x =
        let w = store-walk x in
        elim (Bool-cases (page_number x == page_number addr)) [
          | inl q ↦
              let s = page-SameWay x addr ((==_iff (page_number x) (page_number addr)).0 q) in
              let f = SameWay-walk load_pa m level slot tables 2 root x addr s ∙ finds in
              rw (q, w, f, update_self m b v) refl
          | inr q ↦ elim (Walked-cases (walk_loop load_pa 2 m root x)) [
            | inl (a, f) ↦
                let n : b ≢ a = λ e.
                  let same =
                    walk-SameWay load_pa m level slot tables 2 root root x addr a
                      (omega (arith, top)) (omega (arith, top)) (omega (arith, top))
                      (omega (arith, top)) f (finds ∙ ap found e) in
                  absurd (
                    cc (
                      q,
                      (==_iff (page_number x) (page_number addr)).1 (SameWay-page x addr same.1),
                    )) in
                rw (q, w, f, update_ne m b a v n) refl
            | inr (a, f) ↦ rw (q, w, f) refl
          ]
        ]
