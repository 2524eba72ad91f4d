-- ===== src/Rt/Table/Map.antt =====
-- What translate and map_page do to the mappings.
use keystone_workspace.Base.{
  ℕ, ◌+◌, ◌*◌, ◌%◌, ◌^◌, ◌<◌, ◌≤◌, ◌≡◌, ◌⊎◌, inl, inr, refl, sym, ◌∙◌, ap, ◌==◌, if◌then◌else◌,
  arith, update, Option, none, some, Bool-cases, List, length,
}
use keystone_workspace.Base.Words.{bor, shl}
use keystone_workspace.Base.Words.Fields.{bor_fields, bor-zero_left}
use keystone_workspace.Base.Outcome.{Returns, returns, Returns-bind}
use keystone_workspace.Rt.Words.{Mem, page_bits, riscv_page_size}
use keystone_workspace.Rt.Freemem.{Spa}
use keystone_workspace.Rt.Table.{
  pt_index, found, walk_loop, pte_valid, pte_ppn, pte_create, walk_fuel, minus_one, walked,
}
use keystone_workspace.Rt.Table.Entries.{pte_create_lem, pt_index_lt}
use keystone_workspace.Rt.Table.Walk.{leaf, needs_le, Walked-cases}
use keystone_workspace.Rt.Table.Create.{walk_create-Created}
use keystone_workspace.Rt.Table.Space.{Placed, Space, Holds-store, apart-NotIn}
use keystone_workspace.Rt.Table.Store.{page_number, walk-End}
use keystone_workspace.Rt.Table.Leaf.{leaf-store, store-Tables}
use keystone_workspace.Rt.Table.Ops.{map_page, translate, page_address, used_flags}

-- The physical address that an entry gives.
abbrev pub address_of : Option ℕ → ℕ → ℕ
address_of none x = 0
address_of (some e) x = bor 64 (shl 64 (pte_ppn e) page_bits) (x % riscv_page_size)

pub address_of-created :
    (page kind x : ℕ)
    → page < 2 ^ 52
    → address_of (some (pte_create page kind)) x ≡ page * 4096 + x % 4096
unfolding shl
address_of-created page kind x h =
    let e : pte_ppn (pte_create page kind) * 2 ^ 12 % 2 ^ 64 ≡ page * 4096 + 0 =
      omega (arith, (pte_create_lem page kind (omega arith)).1) in
    let low : bor 12 0 (x % 4096) ≡ x % 4096 = bor-zero_left 12 (x % 4096) (omega arith) in
    rw e (
      bor_fields 12 64 page 0 (x % 4096) (omega arith) (omega arith) (omega arith) (omega arith)
      ∙ ap (λ (t : ℕ). page * 4096 + t) low)

module _ (load_pa end root : ℕ) where
  pub translate-leaf :
      (m : Mem) (x : ℕ) → translate load_pa end root m x ≡ address_of (leaf load_pa 2 m root x) x
  unfolding translate
  translate-leaf m x = elim (Walked-cases (walk_loop load_pa 2 m root x)) [
    | inl (b, f) ↦ elim (Bool-cases (pte_valid (m b))) [
      | inl v ↦ rw (f, v) refl
      | inr v ↦ rw (f, v) refl
    ]
    | inr (a, f) ↦ rw f refl
  ]

  -- Page tables and free pages are in order.
  pub record InOrder (s : Spa) (n : ℕ) : Type 0 where
    pub q : List ℕ
    pub level : ℕ → ℕ
    pub slot : ℕ → ℕ
    pub space : Space load_pa end root s q level slot
    pub at_least : n ≤ length q

  pub store-Space :
      (s : Spa) (q : List ℕ) (level slot : ℕ → ℕ) (addr b v : ℕ)
      → Space load_pa end root s q level slot
      → walked load_pa end root s.mem addr ≡ found b
      → Space load_pa end root (record s { mem = update s.mem b v }) q level slot
  store-Space s q level slot addr b v sp w =
      let (t, lt, e) =
        walk-End load_pa s.mem level slot sp.tables 2 root addr b (omega (arith, sp.top))
          (omega (arith, sp.top)) w in
      let n =
        apart-NotIn end level t (pt_index addr 3) q sp.holds.pages sp.apart (omega (arith, lt))
          (sp.tables.aligned t (omega (arith, lt))) (pt_index_lt addr 3) in
      record {
        holds = Holds-store end s q b v (rw e n) sp.holds;
        tables = store-Tables load_pa s.mem level slot sp.tables root sp.top addr b v w;
        top = sp.top;
        apart = sp.apart;
      }

  -- The value at the entry that a walk finds is that of the mapping.
  pub leaf-found :
      (m : Mem) (addr b : ℕ)
      → walked load_pa end root m addr ≡ found b
      → leaf load_pa 2 m root addr ≡ (if pte_valid (m b) then some (m b) else none)
  leaf-found m addr b w = rw w refl

  pub page_number-address : (vpn : ℕ) → page_number (page_address vpn) ≡ vpn % 2 ^ 27
  unfolding shl
  page_number-address vpn = omega arith

  -- The mapping of the page of `vpn` is that to `page`, and the others are those of `s`.
  abbrev pub Maps : Spa → ℕ → ℕ → Spa → Type 0
  Maps s vpn page s1 =
      (x : ℕ)
      → translate load_pa end root s1.mem x ≡ (
          if page_number x == vpn % 2 ^ 27
          then page * 4096 + x % 4096
          else translate load_pa end root s.mem x)

  -- To store an entry where the walk ended, in a memory with the same mappings as at the start.
  pub store-Maps :
      (s s1 : Spa) (q : List ℕ) (level slot : ℕ → ℕ) (vpn page kind b : ℕ)
      → Space load_pa end root s1 q level slot
      → ((x : ℕ) → leaf load_pa 2 s1.mem root x ≡ leaf load_pa 2 s.mem root x)
      → walked load_pa end root s1.mem (page_address vpn) ≡ found b
      → page < 2 ^ 52
      → Maps s vpn page (record s1 { mem = update s1.mem b (pte_create page kind) })
  store-Maps s s1 q level slot vpn page kind b sp same w l x =
      let v = pte_create page kind in
      let store =
        leaf-store load_pa s1.mem level slot sp.tables root sp.top (page_address vpn) b v w x in
      rw
        (
          translate-leaf (update s1.mem b v) x,
          translate-leaf s.mem x,
          store,
          page_number-address vpn,
          (pte_create_lem page kind (omega arith)).0,
          same x,
        )
        (elim (Bool-cases (page_number x == vpn % 2 ^ 27)) [
          | inl t ↦ rw t (address_of-created page kind x l)
          | inr f ↦ rw f refl
        ])

  -- map_page returns if two pages are free and the page number has at most 52 bits. On a page that
  -- is mapped it gives -1, and every address is translated as before; on any other it gives 1, the
  -- addresses of the page are translated to those of the physical page, and every other one as
  -- before. Page tables and free pages stay in order. Pages are told apart by the 27 bits of an
  -- address above the offset.
  pub map_page_lem :
      (s : Spa) (vpn page flags : ℕ)
      → Placed load_pa end
      → InOrder s 2
      → page < 2 ^ 52
      → Returns
          (λ r.
            let (code, s1) = r in
            InOrder s1 0
            × (((e : ℕ) × (leaf load_pa 2 s.mem root (page_address vpn) ≡ some e)
                  × (code ≡ minus_one)
                  × ((x : ℕ)
                      → translate load_pa end root s1.mem x ≡ translate load_pa end root s.mem x))
                ⊎ ((leaf load_pa 2 s.mem root (page_address vpn) ≡ none)
                    × (code ≡ 1)
                    × Maps s vpn page s1)))
          (map_page load_pa end root s vpn page flags)
  unfolding map_page
  map_page_lem s vpn page flags placed o l =
      let addr = page_address vpn in
      let n = needs_le load_pa 2 s.mem root addr in
      Returns-bind
        (walk_create-Created load_pa end root placed walk_fuel s addr o.q o.level o.slot o.space
          (omega (arith, n, o.at_least)) (omega (arith, n)))
        λ r c.
          let f = leaf-found r.1.mem addr r.0 c.finds in
          elim (Bool-cases (pte_valid (r.1.mem r.0))) [
            | inl v ↦
                let e : leaf load_pa 2 s.mem root addr ≡ some (r.1.mem r.0) =
                  sym (c.same addr) ∙ f ∙ (rw v refl) in
                rw v (
                  returns (
                    record {
                      q = c.q;
                      level = c.level;
                      slot = c.slot;
                      space = c.space;
                      at_least = omega arith;
                    },
                    inl (
                      r.1.mem r.0,
                      e,
                      refl,
                      λ x.
                          translate-leaf r.1.mem x
                          ∙ ap (λ (m : Option ℕ). address_of m x) (c.same x)
                          ∙ sym (translate-leaf s.mem x),
                    ),
                  ))
            | inr v ↦
                let e : leaf load_pa 2 s.mem root addr ≡ none =
                  sym (c.same addr) ∙ f ∙ (rw v refl) in
                rw v (
                  returns (
                    record {
                      q = c.q;
                      level = c.level;
                      slot = c.slot;
                      space =
                          store-Space r.1 c.q c.level c.slot addr r.0
                            (pte_create page (used_flags flags)) c.space c.finds;
                      at_least = omega arith;
                    },
                    inr (
                      e,
                      refl,
                      store-Maps s r.1 c.q c.level c.slot vpn page (used_flags flags) r.0 c.space
                          c.same c.finds l,
                    ),
                  ))
          ]
