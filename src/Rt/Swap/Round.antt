-- ===== src/Rt/Swap/Round.antt =====
-- What page_swap_epm does to the pages that are in the backing storage (runtime/mm/page_swap.c).
use keystone_workspace.Base.{
  ℕ, ◌+◌, ◌/◌, ◌%◌, ◌^◌, ◌<◌, ◌≡◌, ◌≢◌, ◌≤◌, ◌==◌, ==_iff, true, false, ltb, Option, none, some,
  List, [], ◌∷◌, update, update_self, update_ne, arith, refl, sym, ap, ◌∙◌,
}
use keystone_workspace.Base.Outcome.{ret}
use keystone_workspace.Rt.Merkle.{Sha256, Node, page, merk_verify}
use keystone_workspace.Rt.Merkle.Tree.{Tree, depth}
use keystone_workspace.Rt.Merkle.Insert.{done, Merk}
use keystone_workspace.Rt.Merkle.Verify.{same_refl}
use keystone_workspace.Rt.Merkle.Path.{==-false}
use keystone_workspace.Rt.Merkle.Root.{
  Keeps, Room, content, height, added, content-added, depth-added, height-added, merk_verify-Keeps,
}
use keystone_workspace.Rt.Merkle.Added.{insert_any}
use keystone_workspace.Rt.Merkle.Region.{SamePlace, merk_insert_place}
use keystone_workspace.Rt.Swap.{
  Aes, Swap, paging_epm_inbounds, paging_backpage_inbounds, num_ctr_indirects, ctrs_per_page,
  ctr_index, ctr_address, page_swap_epm,
}

-- What is under a key after a page has been put in
module _ {D : Type 0} (h : Sha256 D) (aes : Aes) where
  abbrev pub counter_of : Swap D → ℕ → ℕ
  counter_of s b = s.counters (ctr_address s (ctr_index s b))

  -- The backing storage has the page `bytes` at `b`: encrypted, with its hash in the tree.
  pub record Stored (s : Swap D) (o : Option (Tree D)) (key : List ℕ) (b : ℕ) (bytes : List ℕ)
      : Type 0 where
    pub cipher : s.pages b ≡ aes.encrypt key (counter_of s b) bytes
    pub in_tree : content o b ≡ some (h.sha256 (page bytes (counter_of s b)))

  -- The tree is in order, with room for two more nodes; the key is set, the addresses are in bounds,
  -- and there is a page for the counter of `b`.
  pub record Ready (s : Swap D) (o : Option (Tree D)) (key : List ℕ) (b e p q : ℕ) : Type 0 where
    pub keeps : Keeps h s.merk.nodes s.root o
    pub shallow : height o < 32
    pub room : Room h s.merk s.root o p q
    pub key_set : s.boot_key ≡ some key
    pub epm_in : paging_epm_inbounds s e ≡ true
    pub back_in : paging_backpage_inbounds s b ≡ true
    pub few : ltb (ctr_index s b / ctrs_per_page) num_ctr_indirects ≡ true
    pub has_counter : (s.ctr_indirect_ptrs (ctr_index s b / ctrs_per_page) == 0) ≡ false
    pub not_null : b ≢ 0
    pub apart : b ≢ e

  -- Pages, by their addresses, that are stored
  abbrev pub AllStored : Swap D → Option (Tree D) → List ℕ → List (ℕ × List ℕ) → Type 0
  AllStored s o key [] = Unit
  AllStored s o key ((c, bytes) ∷ rest) = Stored s o key c bytes × AllStored s o key rest

  -- They are neither at `b` nor at `e`, and their counters are not that of `b`.
  abbrev pub AllElsewhere : Swap D → ℕ → ℕ → List (ℕ × List ℕ) → Type 0
  AllElsewhere s b e [] = Unit
  AllElsewhere s b e ((c, bytes) ∷ rest) =
      ((c ≢ b) × (c ≢ e) × (ctr_address s (ctr_index s b) ≢ ctr_address s (ctr_index s c)))
      × AllElsewhere s b e rest

  -- The pool may be another one at the same place.
  counter-place :
      (s : Swap D) (m : Merk D) (pages : ℕ → List ℕ) (counters : ℕ → ℕ) (b : ℕ)
      → SamePlace s.merk.pool m.pool
      → counter_of (record s { merk = m; pages = pages; counters = counters }) b
        ≡ counters (ctr_address s (ctr_index s b))
  counter-place s m pages counters b e = rw (e.0) refl

  -- The state after a swap, but for the pages
  abbrev after : Swap D → Merk D → (ℕ → List ℕ) → ℕ → Swap D
  after s m pages b = record s {
    merk = m;
    pages = pages;
    counters = update s.counters (ctr_address s (ctr_index s b)) ((counter_of s b + 1) % 2 ^ 64);
  }

  -- The page that has gone out is stored, and those that were stored still are.
  module _ (s : Swap D) (m : Merk D) (pages : ℕ → List ℕ) (o : Option (Tree D)) (key : List ℕ)
      (b e p q : ℕ) (place : SamePlace s.merk.pool m.pool) where
    abbrev new_hash : D
    new_hash = h.sha256 (page (s.pages e) ((counter_of s b + 1) % 2 ^ 64))

    Stored-new :
        pages b ≡ aes.encrypt key ((counter_of s b + 1) % 2 ^ 64) (s.pages e)
        → Stored (after s m pages b) (some (added p q b new_hash o)) key b (s.pages e)
    Stored-new c =
        let n =
          counter-place s m pages (after s m pages b).counters b place
          ∙ update_self s.counters (ctr_address s (ctr_index s b)) _ in
        record {
          cipher = rw n c;
          in_tree = rw n (content-added p q b new_hash o b ∙ rw ((==_iff b b).1 refl) refl);
        }

    Stored-other :
        (c : ℕ) (bytes : List ℕ)
        → pages c ≡ s.pages c
        → c ≢ b
        → ctr_address s (ctr_index s b) ≢ ctr_address s (ctr_index s c)
        → Stored s o key c bytes
        → Stored (after s m pages b) (some (added p q b new_hash o)) key c bytes
    Stored-other c bytes same cb far w =
        let n =
          counter-place s m pages (after s m pages b).counters c place
          ∙ update_ne s.counters (ctr_address s (ctr_index s b)) (ctr_address s (ctr_index s c)) _
              far in
        record {
          cipher = rw n (same ∙ w.cipher);
          in_tree = rw n (content-added p q b new_hash o c ∙ rw (==-false cb) refl ∙ w.in_tree);
        }

    AllStored-others :
        (others : List (ℕ × List ℕ))
        → ((c : ℕ) → c ≢ b → c ≢ e → pages c ≡ s.pages c)
        → AllElsewhere s b e others
        → AllStored s o key others
        → AllStored (after s m pages b) (some (added p q b new_hash o)) key others
    AllStored-others [] kept away all = tt
    AllStored-others ((c, bytes) ∷ rest) kept ((cb, ce, far), away) (w, all) =
        (Stored-other c bytes (kept c cb ce) cb far w, AllStored-others rest kept away all)

  module _ (fresh : List ℕ) (random : ℕ → ℕ) (stack : Node D) (fuel : ℕ) where
    -- Swapped out, with nothing to come in: the page is stored, and those that were still are.
    pub page_swap_out :
        (s : Swap D) (o : Option (Tree D)) (key : List ℕ) (b e p q : ℕ)
        → Ready s o key b e p q
        → (u : Swap D) × (t : Tree D) × (page_swap_epm h aes fresh random stack fuel s b e 0
            ≡ ret u)
          × Keeps h u.merk.nodes u.root (some t)
          × (depth t ≤ height o)
          × Stored u (some t) key b (s.pages e)
          × ((c : ℕ) (others : List ℕ)
              → c ≢ b
              → ctr_address s (ctr_index s b) ≢ ctr_address s (ctr_index s c)
              → Stored s o key c others
              → Stored u (some t) key c others)
    unfolding page_swap_epm
    page_swap_out s o key b e p q w =
        let ctr = (counter_of s b + 1) % 2 ^ 64 in
        let d = h.sha256 (page (s.pages e) ctr) in
        let (m, r, keeps) = insert_any h s.merk s.root b p q d o w.keeps w.shallow w.room in
        let place = merk_insert_place h s.merk m s.root b d done r in
        let pages = update s.pages b (aes.encrypt key ctr (s.pages e)) in
        (
          after s m pages b,
          added p q b d o,
          rw (w.epm_in, w.back_in, w.few, w.has_counter, w.key_set, r) refl,
          keeps,
          depth-added p q b d o,
          Stored-new s m pages o key b e p q place (update_self s.pages b _),
          λ c others cb far.
              Stored-other s m pages o key b e p q place c others
                (update_ne s.pages b c _ (λ i. cb (sym i))) cb far,
        )

    -- The walk accepts the hash of a page that is stored.
    accepts :
        (s : Swap D) (o : Option (Tree D)) (key : List ℕ) (b : ℕ) (bytes : List ℕ)
        → Keeps h s.merk.nodes s.root o
        → height o < fuel
        → Stored s o key b bytes
        → merk_verify h fuel
            (λ _. s.merk.nodes)
            stack
            (s.merk.nodes s.root)
            b
            (h.sha256 (page bytes (counter_of s b)))
          ≡ some true
    accepts s none key b bytes k lt w = cc (w.in_tree)
    accepts s (some t) key b bytes k lt w =
        merk_verify-Keeps h fuel s.merk.nodes stack s.root t b _ _ k (omega arith) w.in_tree
        ∙ ap some (same_refl h _)

    -- A stored page comes in for another: if decryption undoes encryption, page_swap_epm returns;
    -- then the page of the enclave holds what was stored at the address, and the storage has there
    -- what the page of the enclave held. Any pages that were stored at other addresses, none of
    -- them the page of the enclave, with other counters, are still stored. The tree is in order and
    -- has as many levels as before. Before, it is in order, with less than 32 levels and room for
    -- two nodes, the key is set, the addresses are in bounds and differ, there is a page for the
    -- counter, and the walk has more rounds than the tree has levels.
    pub page_swap_in :
        (s : Swap D) (o : Option (Tree D)) (key : List ℕ) (b e p q : ℕ) (bytes : List ℕ)
        (others : List (ℕ × List ℕ))
        → ((k : List ℕ) (n : ℕ) (x : List ℕ) → aes.decrypt k n (aes.encrypt k n x) ≡ x)
        → Ready s o key b e p q
        → height o < fuel
        → Stored s o key b bytes
        → AllElsewhere s b e others
        → AllStored s o key others
        → (u : Swap D) × (t : Tree D) × (page_swap_epm h aes fresh random stack fuel s b e b
            ≡ ret u)
          × (u.pages e ≡ bytes)
          × Keeps h u.merk.nodes u.root (some t)
          × (height (some t) ≡ height o)
          × Stored u (some t) key b (s.pages e)
          × AllStored u (some t) key others
    unfolding page_swap_epm
    page_swap_in s o key b e p q bytes others inverse w enough here away old =
        let ctr = (counter_of s b + 1) % 2 ^ 64 in
        let d = h.sha256 (page (s.pages e) ctr) in
        let (m, r, keeps) = insert_any h s.merk s.root b p q d o w.keeps w.shallow w.room in
        let place = merk_insert_place h s.merk m s.root b d done r in
        let out = update s.pages b (aes.encrypt key ctr (s.pages e)) in
        let back : aes.decrypt key (counter_of s b) (s.pages b) ≡ bytes =
          ap (aes.decrypt key (counter_of s b)) here.cipher ∙ inverse key (counter_of s b) bytes in
        let pages = update out e bytes in
        (
          after s m pages b,
          added p q b d o,
          rw
              (
                w.epm_in,
                w.back_in,
                w.few,
                w.has_counter,
                w.key_set,
                ==-false w.not_null,
                (==_iff b b).1 refl,
                back,
                update_self out e bytes,
                accepts s o key b bytes w.keeps enough here,
                r,
              )
              refl,
          update_self out e bytes,
          keeps,
          height-added p q b d _ o here.in_tree,
          Stored-new s m pages o key b e p q place
              (update_ne out e b bytes (λ i. w.apart (sym i)) ∙ update_self s.pages b _),
          AllStored-others s m pages o key b e p q place others
              (λ c cb ce.
                update_ne out e c bytes (λ i. ce (sym i))
                ∙ update_ne s.pages b c _ (λ i. cb (sym i)))
              away old,
        )
