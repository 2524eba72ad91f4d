-- ===== src/Rt/Table/Create.antt =====
-- The walk that adds the missing tables.
use keystone_workspace.Base.{
  ℕ, zero, suc, ◌+◌, ◌*◌, ◌/◌, ◌^◌, ◌<◌, ◌≤◌, ◌≡◌, inl, inr, refl, ◌∙◌, ap, true, not, ◌==◌, arith,
  update, update_ne, List, [], ◌∷◌, length,
}
use keystone_workspace.Base.Words.{shr}
use keystone_workspace.Base.Outcome.{
  ret, ◌>>=◌, Returns, returns, Returns-bind, Returns-assert, Returns-map,
}
use keystone_workspace.Rt.Words.{Mem, clear_page, pa}
use keystone_workspace.Rt.Freemem.{Spa, spa_get_zero}
use keystone_workspace.Rt.Freemem.Queue.{IsPage}
use keystone_workspace.Rt.Freemem.Laws.{spa_get-Holds}
use keystone_workspace.Rt.Table.{
  found, missing, pte_valid, table_of, ptd_create, ppn, pte_v, walked, create_table, walk_create,
  walk_end,
}
use keystone_workspace.Rt.Table.Entries.{pte_create_lem, table_of-ptd_create}
use keystone_workspace.Rt.Table.Walk.{Stop, leaf, needs, walk-Stop, needs-found, Walked-cases}
use keystone_workspace.Rt.Table.Grow.{leaf-grown, needs-grown, grown-Tables}
use keystone_workspace.Rt.Table.Space.{Placed, Space, apart-NotIn, apart-grown, Holds-store}

module _ (load_pa end root : ℕ) (placed : Placed load_pa end) where
  abbrev pub entry_for : ℕ → ℕ
  entry_for p = ptd_create (ppn (pa load_pa p))

  entry-leads : (p : ℕ) → IsPage end p → table_of load_pa (entry_for p) ≡ p
  entry-leads p (z, l, u) =
      table_of-ptd_create load_pa p z (omega arith) (omega (arith, placed.in_word)) placed.page
        (omega (arith, placed.physical))

  entry-valid : (p : ℕ) → IsPage end p → pte_valid (entry_for p) ≡ true
  unfolding shr
  entry-valid p (z, l, u) =
      (pte_create_lem (pa load_pa p / 2 ^ 12) pte_v (omega (arith, placed.physical))).0

  top-grown : (level : ℕ → ℕ) (p n : ℕ) → level root ≡ 1 → level p ≡ 0 → update level p n root ≡ 1
  top-grown level p n top new =
      update_ne level p root n (λ e. absurd (omega (arith, top, new, ap level e))) ∙ top

  create_table-Space :
      (s : Spa) (p : ℕ) (q : List ℕ) (level slot : ℕ → ℕ) (a : ℕ)
      → Space load_pa end root s (p ∷ q) level slot
      → (stop : Stop load_pa s.mem level a)
      → Returns
          (λ s1.
            (s1.mem ≡ update (clear_page s.mem p) (stop.table + 8 * stop.idx) (entry_for p))
            × Space load_pa end root s1 q
                (update level p (level stop.table + 1))
                (update slot p (stop.table + 8 * stop.idx)))
          (create_table load_pa end root s a)
  unfolding create_table spa_get_zero
  create_table-Space s p q level slot a sp stop =
      Returns-bind (spa_get-Holds end true s p q sp.holds) λ r k.
        let (ok, pages) = sp.holds.pages in
        let (away, distinct) = sp.holds.distinct in
        let (new, apart) = sp.apart in
        let e : update r.1.mem a (entry_for r.0)
            ≡ update (clear_page s.mem p) (stop.table + 8 * stop.idx) (entry_for p) =
          rw (k.2, k.0, stop.here) refl in
        let aligned = sp.tables.aligned stop.table stop.has_level in
        let links =
          apart-NotIn end level stop.table stop.idx q pages apart stop.has_level aligned
            stop.in_table in
        Returns-assert {b = not (r.0 == 0)} (ground (arith, k.0, ok)) (
          returns (
            e,
            record {
              holds = Holds-store end r.1 q a (entry_for r.0) (rw stop.here links) k.1;
              tables = rw e (
                  grown-Tables load_pa s.mem level slot sp.tables stop.table stop.idx p
                    (entry_for p) stop.has_level stop.inner stop.in_table stop.free_slot ok.0
                    (omega (arith, ok)) new (entry-leads p ok) (entry-valid p ok));
              top = top-grown level p (level stop.table + 1) sp.top new;
              apart = apart-grown level p (level stop.table + 1) q away apart;
            },
          ))

  -- What the walk leaves: the entry is found, no mapping has changed, and the tables that were
  -- missing have been taken from the free pages.
  pub record Created (s : Spa) (n : ℕ) (addr : ℕ) (b : ℕ) (s1 : Spa) : Type 0 where
    pub q : List ℕ
    pub level : ℕ → ℕ
    pub slot : ℕ → ℕ
    pub space : Space load_pa end root s1 q level slot
    pub finds : walked load_pa end root s1.mem addr ≡ found b
    pub same : (x : ℕ) → leaf load_pa 2 s1.mem root x ≡ leaf load_pa 2 s.mem root x
    pub used : length q + needs load_pa 2 s.mem root addr ≡ n

  walk_create-found :
      (fuel : ℕ) (s : Spa) (addr b : ℕ)
      → walked load_pa end root s.mem addr ≡ found b
      → walk_create load_pa end root (suc fuel) s addr ≡ ret (b, s)
  unfolding walk_create walk_end
  walk_create-found fuel s addr b w =
      ap (walk_end load_pa end root (λ s1. walk_create load_pa end root fuel s1 addr) s) w

  walk_create-missing :
      (fuel : ℕ) (s : Spa) (addr a : ℕ)
      → walked load_pa end root s.mem addr ≡ missing a
      → walk_create load_pa end root (suc fuel) s addr
        ≡ (create_table load_pa end root s a >>= λ s1. walk_create load_pa end root fuel s1 addr)
  unfolding walk_create walk_end
  walk_create-missing fuel s addr a w =
      ap (walk_end load_pa end root (λ s1. walk_create load_pa end root fuel s1 addr) s) w

  already-Created :
      (fuel : ℕ) (s : Spa) (addr : ℕ) (q : List ℕ) (level slot : ℕ → ℕ) (b : ℕ)
      → Space load_pa end root s q level slot
      → walked load_pa end root s.mem addr ≡ found b
      → Returns
          (λ r. let (b, s1) = r in Created s (length q) addr b s1)
          (walk_create load_pa end root (suc fuel) s addr)
  already-Created fuel s addr q level slot b sp w =
      let n = needs-found load_pa s.mem level slot sp.tables 2 root addr b w in
      rw (walk_create-found fuel s addr b w) (
        returns (record {
          q = q;
          level = level;
          slot = slot;
          space = sp;
          finds = w;
          same = λ x. refl;
          used = omega (arith, n);
        }))

  -- One table more, and the walk once more.
  again-Created :
      (fuel : ℕ) (s : Spa) (addr p : ℕ) (q : List ℕ) (level slot : ℕ → ℕ) (a : ℕ)
      → Space load_pa end root s (p ∷ q) level slot
      → walked load_pa end root s.mem addr ≡ missing a
      → ((s1 : Spa) (level1 slot1 : ℕ → ℕ)
          → Space load_pa end root s1 q level1 slot1
          → needs load_pa 2 s1.mem root addr + 1 ≡ needs load_pa 2 s.mem root addr
          → Returns
              (λ r. let (b, s2) = r in Created s1 (length q) addr b s2)
              (walk_create load_pa end root fuel s1 addr))
      → Returns
          (λ r. let (b, s1) = r in Created s (length (p ∷ q)) addr b s1)
          (walk_create load_pa end root (suc fuel) s addr)
  again-Created fuel s addr p q level slot a sp w rest =
      let (ok, pages) = sp.holds.pages in
      let (new, apart) = sp.apart in
      let (stop, pos) =
        walk-Stop load_pa s.mem level slot sp.tables 2 root addr a (omega (arith, sp.top))
          (omega (arith, sp.top)) w in
      let same = λ (x : ℕ).
        leaf-grown load_pa s.mem level slot sp.tables stop.table stop.idx p (entry_for p)
          stop.has_level stop.inner stop.in_table stop.free_slot ok.0 (omega (arith, ok)) new
          (entry-leads p ok) (entry-valid p ok) 2 root x (omega (arith, sp.top))
          (omega (arith, sp.top)) in
      let less =
        needs-grown load_pa s.mem level slot sp.tables stop.table stop.idx p (entry_for p)
          stop.has_level stop.inner stop.in_table stop.free_slot ok.0 (omega (arith, ok)) new
          (entry-leads p ok) (entry-valid p ok) 2 root addr (omega (arith, sp.top))
          (omega (arith, sp.top)) (w ∙ ap missing stop.here) in
      rw (walk_create-missing fuel s addr a w) (
        Returns-bind (create_table-Space s p q level slot a sp stop) λ s1 k.
          let less1 = ap (λ (m : Mem). needs load_pa 2 m root addr + 1) k.0 ∙ less in
          Returns-map
            (λ r c. record {
              q = c.q;
              level = c.level;
              slot = c.slot;
              space = c.space;
              finds = c.finds;
              same = λ x. c.same x ∙ ap (λ (m : Mem). leaf load_pa 2 m root x) k.0 ∙ same x;
              used = omega (arith, c.used, less1);
            })
            (rest s1 (update level p (level stop.table + 1))
              (update slot p (stop.table + 8 * stop.idx)) k.1 less1))

  -- __walk_create returns if there are at least as many free pages as tables are missing on the
  -- way to the address, and the fuel is enough if it is more than that number. Then the walk finds
  -- the entry whose address was given, no mapping has changed, page tables and free pages are in
  -- order, and the free pages are fewer by the tables that were missing.
  pub walk_create-Created :
      (fuel : ℕ) (s : Spa) (addr : ℕ) (q : List ℕ) (level slot : ℕ → ℕ)
      → Space load_pa end root s q level slot
      → needs load_pa 2 s.mem root addr ≤ length q
      → needs load_pa 2 s.mem root addr < fuel
      → Returns
          (λ r. let (b, s1) = r in Created s (length q) addr b s1)
          (walk_create load_pa end root fuel s addr)
  walk_create-Created zero s addr q level slot sp enough fu = absurd (omega arith)
  walk_create-Created (suc fuel) s addr [] level slot sp enough fu =
      elim (Walked-cases (walked load_pa end root s.mem addr)) [
        | inl (b, w) ↦ already-Created fuel s addr [] level slot b sp w
        | inr (a, w) ↦
            let l = sp.top in
            absurd (
              omega (
                arith,
                (walk-Stop load_pa s.mem level slot sp.tables 2 root addr a (omega (arith, l))
                    (omega (arith, l)) w).1,
              ))
      ]
  walk_create-Created (suc fuel) s addr (p ∷ q) level slot sp enough fu =
      elim (Walked-cases (walked load_pa end root s.mem addr)) [
        | inl (b, w) ↦ already-Created fuel s addr (p ∷ q) level slot b sp w
        | inr (a, w) ↦ again-Created fuel s addr p q level slot a sp w (λ s1 level1 slot1 sp1 n.
            walk_create-Created fuel s1 addr q level1 slot1 sp1 (omega (arith, n))
              (omega (arith, n)))
      ]
