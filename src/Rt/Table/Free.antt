-- ===== src/Rt/Table/Free.antt =====
-- What free_page does to the mappings, and after alloc_page.
use keystone_workspace.Base.{
  ℕ, ◌+◌, ◌*◌, ◌%◌, ◌^◌, ◌<◌, ◌≤◌, ◌≡◌, ◌≢◌, inl, inr, refl, sym, ◌∙◌, ap, Bool, true, false, ◌||◌,
  ◌==◌, if◌then◌else◌, arith, update, Option, none, some, Bool-cases, ==_iff, List, [], ◌∷◌, ◌++◌,
  length, length_snoc, NotIn, All-snoc,
}
use keystone_workspace.Base.Words.{bit, bor, band, shl, shr, bit-bor, bit-band}
use keystone_workspace.Base.Words.Masks.{band-pow}
use keystone_workspace.Base.Outcome.{◌>>=◌, Returns, Returns-bind, Returns-map}
use keystone_workspace.Rt.Words.{Mem, page_bits, va, pa}
use keystone_workspace.Rt.Freemem.{Spa, spa_put}
use keystone_workspace.Rt.Freemem.Queue.{IsPage}
use keystone_workspace.Rt.Freemem.Laws.{put-Holds}
use keystone_workspace.Rt.Table.{
  found, walk_loop, pte_valid, pte_ppn, pte_create, ppn, pte_u, pte_v, pte_a, pte_d, walked,
}
use keystone_workspace.Rt.Table.Entries.{pte_valid_lem, va-ppn, pte_create_lem}
use keystone_workspace.Rt.Table.Walk.{Tables, entry_of, leaf, Walked-cases}
use keystone_workspace.Rt.Table.Space.{Placed, Space, apart-NotIn}
use keystone_workspace.Rt.Table.Store.{page_number, page-SameWay, SameWay-walk}
use keystone_workspace.Rt.Table.Leaf.{Outside, leaf-Outside, leaf-store}
use keystone_workspace.Rt.Table.Ops.{
  alloc_page, free_page, free_at, translate, page_address, used_flags,
}
use keystone_workspace.Rt.Table.Map.{
  translate-leaf, store-Space, page_number-address, address_of, InOrder,
}
use keystone_workspace.Rt.Table.Alloc.{moved-Space, alloc_page_lem}

or_true : (b : Bool) → (b || true) ≡ true
or_true true = refl
or_true false = refl

mask_user : bit 1023 4 ≡ true
unfolding bit
mask_user = refl

-- An entry that is created for the user has the user's flag.
user-flag : (page kind : ℕ) → bit kind 4 ≡ true → band 64 (pte_create page kind) pte_u ≢ 0
unfolding pte_create
user-flag page kind h =
    let a = bor 64 (shl 64 page 10) 1 in
    let e = bit-bor 64 a (band 64 kind 1023) 4 (omega arith) in
    let f = bit-band 64 kind 1023 4 (omega arith) in
    rw (band-pow 64 (pte_create page kind) 4 (omega arith), e, f, h, mask_user, or_true (bit a 4))
      (omega arith)

used_user : (flags : ℕ) → bit flags 4 ≡ true → bit (used_flags flags) 4 ≡ true
used_user flags h =
    rw
      (
        bit-bor 64 (bor 64 (bor 64 pte_d pte_a) pte_v) flags 4 (omega arith),
        h,
        or_true (bit (bor 64 (bor 64 pte_d pte_a) pte_v) 4),
      )
      refl

module _ (load_pa end root : ℕ) where
  leaf-some :
      (m : Mem) (addr e : ℕ)
      → leaf load_pa 2 m root addr ≡ some e
      → (b : ℕ) × (walked load_pa end root m addr ≡ found b) × (pte_valid (m b) ≡ true) × (m b ≡ e)
  leaf-some m addr e h = elim (Walked-cases (walk_loop load_pa 2 m root addr)) [
    | inl (b, f) ↦ elim (Bool-cases (pte_valid (m b))) [
      | inl v ↦ let g : some (m b) ≡ some e = sym (rw (f, v) refl) ∙ h in (b, f, v, cc g)
      | inr v ↦ let g : none ≡ some e = sym (rw (f, v) refl) ∙ h in absurd (cc g)
    ]
    | inr (a, f) ↦ let g : none ≡ some e = sym (rw f refl) ∙ h in absurd (cc g)
  ]

  free_at-valid :
      (s : Spa) (b : ℕ)
      → pte_valid (s.mem b) ≡ true
      → band 64 (s.mem b) pte_u ≢ 0
      → free_at load_pa end root s (some b)
        ≡ spa_put end
            (record s { mem = update s.mem b 0 })
            (va load_pa (shl 64 (pte_ppn (s.mem b)) page_bits))
  unfolding free_at
  free_at-valid s b v u =
      let t : (band 64 (s.mem b) pte_u == 0) ≡ false = ground arith in rw (v, t) refl

  -- free_page on a `vpn` that is mapped to a page of the user: it returns, the mapping is gone, no
  -- other one changes, and the page is the last free one. The page is one of the free memory that
  -- is neither free nor a table, and there are less than 2^32 free pages. The tables stay in order.
  pub free_page_lem :
      (s : Spa) (q : List ℕ) (level slot : ℕ → ℕ) (vpn e p : ℕ)
      → Space load_pa end root s q level slot
      → leaf load_pa 2 s.mem root (page_address vpn) ≡ some e
      → band 64 e pte_u ≢ 0
      → va load_pa (shl 64 (pte_ppn e) page_bits) ≡ p
      → IsPage end p
      → NotIn p q
      → level p ≡ 0
      → length q + 1 < 2 ^ 32
      → Returns
          (λ s1.
            Space load_pa end root s1 (q ++ (p ∷ [])) level slot
            × ((x : ℕ)
                → leaf load_pa 2 s1.mem root x
                  ≡ (if page_number x == vpn % 2 ^ 27 then none else leaf load_pa 2 s.mem root x)))
          (free_page load_pa end root s vpn)
  unfolding free_page
  free_page_lem s q level slot vpn e p sp h u a ok away new room =
      let addr = page_address vpn in
      let (b, w, v, me) = leaf-some s.mem addr e h in
      let u1 : band 64 (s.mem b) pte_u ≢ 0 =
        λ z. u (sym (ap (λ (x : ℕ). band 64 x pte_u) me) ∙ z) in
      let sp1 = store-Space load_pa end root s q level slot addr b 0 sp w in
      rw (w, free_at-valid s b v u1, me, a)
        (Returns-map
          (λ t k.
            let o : Outside load_pa (update s.mem b 0) level slot sp1.tables root sp1.top t.mem =
              λ i j l c. k.1 (i + 8 * j) (
                apart-NotIn end level i j (p ∷ q) (ok, sp.holds.pages) (new, sp.apart) l
                  (sp.tables.aligned i l) c) in
            (
              moved-Space load_pa end root (record s { mem = update s.mem b 0 }) t q (q ++ (p ∷ []))
                  level slot sp1 o k.0 (All-snoc (λ x. level x ≡ 0) q p sp.apart new),
              λ x.
                  leaf-Outside load_pa (update s.mem b 0) level slot sp1.tables root sp1.top t.mem x
                    o
                  ∙ leaf-store load_pa s.mem level slot sp.tables root sp.top addr b 0 w x
                  ∙ (rw (page_number-address load_pa end root vpn, pte_valid_lem 0) refl),
            ))
          (put-Holds end (record s { mem = update s.mem b 0 }) p q sp1.holds ok away room))

  -- The mapping of an address is that of its page.
  leaf-page :
      (m : Mem) (level slot : ℕ → ℕ)
      → Tables load_pa m level slot
      → (x y : ℕ) → page_number x ≡ page_number y
      → leaf load_pa 2 m root x ≡ leaf load_pa 2 m root y
  leaf-page m level slot tables x y e =
      ap (entry_of load_pa m)
        (SameWay-walk load_pa m level slot tables 2 root x y (page-SameWay x y e))

  has_user : (flags : ℕ) → band 64 flags pte_u ≢ 0 → bit flags 4 ≡ true
  has_user flags u =
      let e = band-pow 64 flags 4 (omega arith) in
      elim (Bool-cases (bit flags 4)) [ inl t ↦ t | inr f ↦ absurd (u (e ∙ (rw f refl))) ]

  number-small : (p : ℕ) → Placed load_pa end → IsPage end p → ppn (pa load_pa p) < 2 ^ 54
  unfolding shr
  number-small p placed (z, l, u) = omega (arith, placed.physical, placed.in_word)

  restored :
      (s : Spa) (level slot : ℕ → ℕ) (vpn v : ℕ) (s1 : Spa)
      → {q : List ℕ} → Space load_pa end root s q level slot
      → leaf load_pa 2 s.mem root (page_address vpn) ≡ none
      → ((x : ℕ)
          → leaf load_pa 2 s1.mem root x
            ≡ (if page_number x == vpn % 2 ^ 27 then some v else leaf load_pa 2 s.mem root x))
      → (x : ℕ)
      → (if page_number x == vpn % 2 ^ 27 then none else leaf load_pa 2 s1.mem root x)
        ≡ leaf load_pa 2 s.mem root x
  restored s level slot vpn v s1 sp n o x = elim (Bool-cases (page_number x == vpn % 2 ^ 27)) [
    | inl t ↦
        let e =
          (==_iff (page_number x) (vpn % 2 ^ 27)).0 t
          ∙ sym (page_number-address load_pa end root vpn) in
        rw t (sym (leaf-page s.mem level slot sp.tables x (page_address vpn) e ∙ n))
    | inr f ↦ rw f (o x ∙ (rw f refl))
  ]

  -- alloc_page for the user on a page that is not mapped, and then free_page on it, return if three
  -- pages are free, and leave every address translated as before. Page tables and free pages are in
  -- order, and at least one page is free.
  pub alloc_page-free_page :
      (s : Spa) (q : List ℕ) (level slot : ℕ → ℕ) (vpn flags : ℕ)
      → Placed load_pa end
      → Space load_pa end root s q level slot
      → 3 ≤ length q
      → leaf load_pa 2 s.mem root (page_address vpn) ≡ none
      → band 64 flags pte_u ≢ 0
      → Returns
          (λ s2.
            InOrder load_pa end root s2 1
            × ((x : ℕ) → translate load_pa end root s2.mem x ≡ translate load_pa end root s.mem x))
          (alloc_page load_pa end root s vpn flags >>= λ r. free_page load_pa end root r.1 vpn)
  alloc_page-free_page s q level slot vpn flags placed sp l n u =
      Returns-bind (alloc_page_lem load_pa end root s q level slot vpn flags placed sp l n) λ r a.
        let number = ppn (pa load_pa r.0) in
        let (z, lo, up) = a.is_page in
        let kind = used_flags flags in
        let small : number < 2 ^ 54 = number-small r.0 placed a.is_page in
        let back : va load_pa (shl 64 (pte_ppn (pte_create number kind)) page_bits) ≡ r.0 =
          ap (λ (k : ℕ). va load_pa (shl 64 k page_bits)) (pte_create_lem number kind small).1
          ∙ va-ppn load_pa r.0 z (omega arith) (omega (arith, placed.in_word)) placed.page
              (omega (arith, placed.physical)) in
        Returns-map
          (λ t k. (
            record {
              q = a.q ++ (r.0 ∷ []);
              level = a.level;
              slot = a.slot;
              space = k.0;
              at_least = omega (arith, length_snoc a.q r.0);
            },
            λ x.
                translate-leaf load_pa end root t.mem x
                ∙ ap (λ (o : Option ℕ). address_of o x)
                    (k.1 x ∙ restored s level slot vpn (pte_create number kind) r.1 sp n a.others x)
                ∙ sym (translate-leaf load_pa end root s.mem x),
          ))
          (free_page_lem r.1 a.q a.level a.slot vpn (pte_create number kind) r.0 a.space a.entry
            (user-flag number kind (used_user flags (has_user flags u))) back a.is_page a.not_free
            a.no_table a.room)
