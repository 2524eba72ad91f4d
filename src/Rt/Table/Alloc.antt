-- ===== src/Rt/Table/Alloc.antt =====
-- What alloc_page and free_page do to the mappings and to the free pages.
use keystone_workspace.Base.{
  ℕ, ◌+◌, ◌/◌, ◌%◌, ◌^◌, ◌<◌, ◌≤◌, ◌≡◌, ◌≢◌, refl, sym, subst, ◌∙◌, ap, Bool, true, false, not,
  ◌==◌, if◌then◌else◌, arith, update, update_ne, none, some, List, [], ◌∷◌, length, NotIn, All,
}
use keystone_workspace.Base.Words.{shr}
use keystone_workspace.Base.Outcome.{◌>>=◌, Returns, returns, Returns-bind, Returns-assert}
use keystone_workspace.Rt.Words.{Mem, clear_page, pa}
use keystone_workspace.Rt.Freemem.{Spa, spa_get_zero}
use keystone_workspace.Rt.Freemem.Queue.{IsPage, Holds}
use keystone_workspace.Rt.Freemem.Laws.{spa_get-Holds}
use keystone_workspace.Rt.Table.{found, pte_valid, pte_create, ppn, walk_fuel, walked}
use keystone_workspace.Rt.Table.Entries.{pte_create_lem, pt_index_lt}
use keystone_workspace.Rt.Table.Walk.{Tables, leaf, needs_le}
use keystone_workspace.Rt.Table.Create.{walk_create-Created}
use keystone_workspace.Rt.Table.Space.{Placed, Space}
use keystone_workspace.Rt.Table.Store.{page_number, walk-End, walk-Inner}
use keystone_workspace.Rt.Table.Leaf.{Outside, leaf-Outside, Outside-Tables, leaf-store}
use keystone_workspace.Rt.Table.Ops.{alloc_with, alloc_at, alloc_page, page_address, used_flags}
use keystone_workspace.Rt.Table.Map.{store-Space, leaf-found, page_number-address}

not-some : (b : Bool) (x : ℕ) → (if b then some x else none) ≡ none → b ≡ false
not-some true x e = cc
not-some false x e = refl

module _ (load_pa end root : ℕ) where
  -- To clear a free page leaves the tables.
  clear-Outside :
      (m : Mem) (level slot : ℕ → ℕ) (tables : Tables load_pa m level slot) (top : level root ≡ 1)
      (p : ℕ)
      → p % 4096 ≡ 0
      → level p ≡ 0
      → Outside load_pa m level slot tables root top (clear_page m p)
  clear-Outside m level slot tables top p z n u j l b =
      let al = tables.aligned u l in
      let apart : u ≢ p = λ q. absurd (omega (arith, l, n, ap level q)) in ground arith

  -- A memory with the same tables, and what the allocator holds in it.
  pub moved-Space :
      (s s1 : Spa) (q q1 : List ℕ) (level slot : ℕ → ℕ)
      → (sp : Space load_pa end root s q level slot)
      → Outside load_pa s.mem level slot sp.tables root sp.top s1.mem
      → Holds end s1 q1
      → All (λ p. level p ≡ 0) q1
      → Space load_pa end root s1 q1 level slot
  moved-Space s s1 q q1 level slot sp o h a = record {
    holds = h;
    tables = Outside-Tables load_pa s.mem level slot sp.tables root sp.top s1.mem o;
    top = sp.top;
    apart = a;
  }

  -- The page that was handed out: it is no longer free, it is no table, it is clear, and `vpn` is
  -- mapped to it by an entry with the flags.
  pub record Allocated (s : Spa) (vpn flags page : ℕ) (s1 : Spa) : Type 0 where
    pub q : List ℕ
    pub level : ℕ → ℕ
    pub slot : ℕ → ℕ
    pub space : Space load_pa end root s1 q level slot
    pub is_page : IsPage end page
    pub room : length q + 1 < 2 ^ 32
    pub not_free : NotIn page q
    pub no_table : level page ≡ 0
    pub clear : (a : ℕ) → page ≤ a → a < page + 4096 → s1.mem a ≡ 0
    pub entry :
        leaf load_pa 2 s1.mem root (page_address vpn)
        ≡ some (pte_create (ppn (pa load_pa page)) (used_flags flags))
    pub others :
        (x : ℕ)
        → leaf load_pa 2 s1.mem root x ≡ (
            if page_number x == vpn % 2 ^ 27
            then some (pte_create (ppn (pa load_pa page)) (used_flags flags))
            else leaf load_pa 2 s.mem root x)

  others-lem :
      (s s1 t : Spa) (level slot : ℕ → ℕ) (tables : Tables load_pa s1.mem level slot)
      (top : level root ≡ 1)
      → Tables load_pa t.mem level slot
      → (vpn b v : ℕ) → Outside load_pa s1.mem level slot tables root top t.mem
      → ((x : ℕ) → leaf load_pa 2 s1.mem root x ≡ leaf load_pa 2 s.mem root x)
      → walked load_pa end root t.mem (page_address vpn) ≡ found b
      → pte_valid v ≡ true
      → (x : ℕ)
      → leaf load_pa 2 (update t.mem b v) root x
        ≡ (if page_number x == vpn % 2 ^ 27 then some v else leaf load_pa 2 s.mem root x)
  others-lem s s1 t level slot tables top tables1 vpn b v o same w valid x =
      rw
        (
          leaf-store load_pa t.mem level slot tables1 root top (page_address vpn) b v w x,
          page_number-address load_pa end root vpn,
          valid,
          leaf-Outside load_pa s1.mem level slot tables root top t.mem x o,
          same x,
        )
        refl

  alloc_with-Allocated :
      (s s1 t : Spa) (p : ℕ) (q : List ℕ) (level slot : ℕ → ℕ) (vpn flags b : ℕ)
      → Placed load_pa end
      → Space load_pa end root s1 (p ∷ q) level slot
      → ((x : ℕ) → leaf load_pa 2 s1.mem root x ≡ leaf load_pa 2 s.mem root x)
      → walked load_pa end root s1.mem (page_address vpn) ≡ found b
      → Holds end t q
      → t.mem ≡ clear_page s1.mem p
      → Returns
          (λ r. let (page, s2) = r in Allocated s vpn flags page s2)
          (alloc_with load_pa end root flags b (p, t))
  unfolding alloc_with shr
  alloc_with-Allocated s s1 t p q level slot vpn flags b placed sp same w h e =
      let (ok, pages) = sp.holds.pages in
      let (away, distinct) = sp.holds.distinct in
      let (new, apart) = sp.apart in
      let addr = page_address vpn in
      let v = pte_create (ppn (pa load_pa p)) (used_flags flags) in
      let o = clear-Outside s1.mem level slot sp.tables sp.top p ok.0 new in
      let o1 : Outside load_pa s1.mem level slot sp.tables root sp.top t.mem = rw e o in
      let sp1 = moved-Space s1 t (p ∷ q) q level slot sp o1 h apart in
      let w1 : walked load_pa end root t.mem addr ≡ found b =
        walk-Inner load_pa s1.mem level slot sp.tables t.mem 2 root addr (λ u j l i c. o1 u j l c)
          (omega (arith, sp.top)) (omega (arith, sp.top))
        ∙ w in
      let (d, ld, eb) =
        walk-End load_pa t.mem level slot sp1.tables 2 root addr b (omega (arith, sp.top))
          (omega (arith, sp.top)) w1 in
      let valid =
        (pte_create_lem (pa load_pa p / 2 ^ 12) (used_flags flags)
          (omega (arith, placed.physical, ok))).0 in
      let others = λ (x : ℕ).
        others-lem s s1 t level slot sp.tables sp.top sp1.tables vpn b v o1 same w1 valid x in
      Returns-assert {b = not (p == 0)} (ground (arith, ok)) (
        returns (record {
          q = q;
          level = level;
          slot = slot;
          space = store-Space load_pa end root t q level slot addr b v sp1 w1;
          is_page = ok;
          room = omega (arith, sp.holds.bounded);
          not_free = away;
          no_table = new;
          clear = λ a l u.
              let n : d ≢ p = λ r. absurd (omega (arith, ld, new, ap level r)) in
              let m : b ≢ a =
                omega (
                  arith,
                  n,
                  eb,
                  ok.0,
                  pt_index_lt addr 3,
                  sp.tables.aligned d (omega (arith, ld)),
                ) in
              update_ne t.mem b a v m ∙ ap (λ (f : Mem). f a) e ∙ (ground arith);
          entry = others addr ∙ (rw (page_number-address load_pa end root vpn) (ground arith));
          others = others;
        }))

  alloc_at-new :
      (flags b : ℕ) (s : Spa)
      → b ≢ 0
      → pte_valid (s.mem b) ≡ false
      → alloc_at load_pa end root flags (b, s)
        ≡ (spa_get_zero end s >>= alloc_with load_pa end root flags b)
  unfolding alloc_at
  alloc_at-new flags b s n v = let t : (b == 0) ≡ false = ground arith in rw (t, v) refl

  alloc_at-Allocated :
      (s s1 : Spa) (q : List ℕ) (level slot : ℕ → ℕ) (vpn flags b : ℕ)
      → Placed load_pa end
      → Space load_pa end root s1 q level slot
      → 1 ≤ length q
      → ((x : ℕ) → leaf load_pa 2 s1.mem root x ≡ leaf load_pa 2 s.mem root x)
      → walked load_pa end root s1.mem (page_address vpn) ≡ found b
      → leaf load_pa 2 s.mem root (page_address vpn) ≡ none
      → Returns
          (λ r. let (page, s2) = r in Allocated s vpn flags page s2)
          (alloc_at load_pa end root flags (b, s1))
  unfolding spa_get_zero
  alloc_at-Allocated s s1 [] level slot vpn flags b placed sp l same w n = absurd (omega arith)
  alloc_at-Allocated s s1 (p ∷ q) level slot vpn flags b placed sp l same w n =
      let addr = page_address vpn in
      let f = sym (leaf-found load_pa end root s1.mem addr b w) ∙ same addr ∙ n in
      let v : pte_valid (s1.mem b) ≡ false = not-some (pte_valid (s1.mem b)) (s1.mem b) f in
      let (d, ld, e) =
        walk-End load_pa s1.mem level slot sp.tables 2 root addr b (omega (arith, sp.top))
          (omega (arith, sp.top)) w in
      let real : b ≢ 0 = omega (arith, e, sp.tables.nonnull d (omega (arith, ld))) in
      rw (alloc_at-new flags b s1 real v) (
        Returns-bind (spa_get-Holds end true s1 p q sp.holds) λ r k.
          let g =
            alloc_with-Allocated s s1 r.1 p q level slot vpn flags b placed sp same w k.1 k.2 in
          subst
            (λ x.
              Returns (λ r. let (page, s2) = r in Allocated s vpn flags page s2)
                (alloc_with load_pa end root flags b (x, r.1)))
            (sym k.0) g)

  -- alloc_page on a page that is not mapped returns if three pages are free, and gives a page of
  -- the free memory: it is no longer free, it is no table, its bytes are 0, and the page is mapped to
  -- it by an entry with the flags, while no other mapping changes. Page tables and free pages stay in
  -- order.
  pub alloc_page_lem :
      (s : Spa) (q : List ℕ) (level slot : ℕ → ℕ) (vpn flags : ℕ)
      → Placed load_pa end
      → Space load_pa end root s q level slot
      → 3 ≤ length q
      → leaf load_pa 2 s.mem root (page_address vpn) ≡ none
      → Returns
          (λ r. let (page, s1) = r in Allocated s vpn flags page s1)
          (alloc_page load_pa end root s vpn flags)
  unfolding alloc_page
  alloc_page_lem s q level slot vpn flags placed sp l n =
      let addr = page_address vpn in
      let m = needs_le load_pa 2 s.mem root addr in
      Returns-bind
        (walk_create-Created load_pa end root placed walk_fuel s addr q level slot sp
          (omega (arith, m)) (omega (arith, m)))
        λ r c.
          alloc_at-Allocated s r.1 c.q c.level c.slot vpn flags r.0 placed c.space
            (omega (arith, c.used, m)) c.same c.finds n
