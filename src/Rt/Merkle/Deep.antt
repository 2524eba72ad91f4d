-- ===== src/Rt/Merkle/Deep.antt =====
-- merk_insert on a tree that is deeper than intermediate_nodes (runtime/crypto/merkle.c): the loop
-- that walks down ends before the leaf, and no test of the depth stops the run.
use keystone_workspace.Base.{
  ℕ, zero, suc, ◌<◌, ◌==◌, ◌≡◌, ◌≢◌, Bool, true, false, Bool-cases, ltb, if◌then◌else◌, some, List,
  [], ◌∷◌, arith, refl, sym, ◌∙◌, inl, inr, subst,
}
use keystone_workspace.Base.Outcome.{ret}
use keystone_workspace.Rt.Merkle.{Node, Sha256}
use keystone_workspace.Rt.Merkle.Alloc.{Pool, merk_alloc_node}
use keystone_workspace.Rt.Merkle.Insert.{
  done, Merk, set_child, set_node, write, descend, hash_placed, percolate, merk_insert,
}
use keystone_workspace.Rt.Merkle.Tree.{
  Tree, tip, fork, address, Apart, node_of, Holds, Holds-address, Holds-same, On-ne,
}
use keystone_workspace.Rt.Merkle.Climb.{Fits, sibling_of, percolate_inner}
use keystone_workspace.Rt.Merkle.Path.{
  fork_left, fork_right, ==-false, write_self, write_other, write_same,
}
use keystone_workspace.Rt.Merkle.Grown.{Fits-left, Fits-right}
use keystone_workspace.Rt.Merkle.Root.{
  Keeps, root_of, root-Fits, root_again, descend_root, percolate_root,
}

module _ {D : Type 0} where
  -- How many forks are on the way to the leaf for a key
  abbrev pub levels : ℕ → Tree D → ℕ
  levels j (tip a k d) = 0
  levels j (fork a k l r) = suc (if ltb j k then levels j l else levels j r)

  -- The walk down, for so many steps at most
  abbrev cut : ℕ → ℕ → Tree D → List ℕ → ℕ × List ℕ
  cut zero j t path = (address t, path)
  cut (suc n) j (tip a k d) path = (a, path)
  cut (suc n) j (fork a k l r) path = if ltb j k then cut n j l (a ∷ path) else cut n j r (a ∷ path)

module _ {D : Type 0} (h : Sha256 D) where
  descend-cut :
      (n : ℕ) (m : ℕ → Node D) (j : ℕ) (t : Tree D) (path : List ℕ)
      → Holds h m t
      → descend n m j (address t) path ≡ cut n j t path
  unfolding descend
  descend-cut zero m j t path v = refl
  descend-cut (suc n) m j (tip a k d) path v = rw v.1 (ground arith)
  descend-cut (suc n) m j (fork a k l r) path (z, t, al, ar, lr, vl, vr) =
      rw t (elim (Bool-cases (ltb j k)) [
        | inl c ↦ rw (c, ==-false (Holds-address h m l vl)) (descend-cut n m j l (a ∷ path) vl)
        | inr c ↦ rw (c, ==-false (Holds-address h m r vr)) (descend-cut n m j r (a ∷ path) vr)
      ])

  module _ (p key : ℕ) (s : Merk D) where
    -- The parent's copy with the hash of its children is what the parent holds already.
    abbrev Settled : Tree D → ℕ → Bool → Type 0
    Settled t parent b =
        hash_placed h (set_child (s.nodes parent) b (address t)) b (node_of h t)
          (sibling_of s.nodes parent b)
        ≡ s.nodes parent

    round_same :
        (a k : ℕ) (l r : Tree D) (parent : ℕ) (b : Bool) (path : List ℕ)
        → Holds h s.nodes (fork a k l r)
        → Fits h s.nodes parent a b
        → Settled (fork a k l r) parent b
        → percolate h p s (s.nodes a) a (parent ∷ path)
          ≡ percolate h p s (s.nodes parent) parent path
    round_same a k l r parent b path v f w =
        percolate_inner h p s (s.nodes a) a parent b path f
          (rw (v.1, ==-false (Holds-address h s.nodes l v.5)) refl)
        ∙ rw (write_same s.nodes a, v.1, w) refl

    stays :
        (n : ℕ) (t : Tree D) (parent : ℕ) (b : Bool) (path : List ℕ)
        → Holds h s.nodes t
        → n < levels key t
        → Fits h s.nodes parent (address t) b
        → Settled t parent b
        → let (last, above) = cut n key t (parent ∷ path) in
          percolate h p s (s.nodes last) last above ≡ percolate h p s (s.nodes parent) parent path
    stays n (tip a k d) parent b path v lt f w = absurd (omega arith)
    stays zero (fork a k l r) parent b path v lt f w = round_same a k l r parent b path v f w
    stays (suc n) (fork a k l r) parent b path v lt f w = elim (Bool-cases (ltb key k)) [
      | inl c ↦ rw c (
          stays n l a false (parent ∷ path) v.5 (ground arith) (Fits-left h s.nodes a k l r v)
            (fork_left h s.nodes a k l r l v ∙ sym v.1)
          ∙ round_same a k l r parent b path v f w)
      | inr c ↦ rw c (
          stays n r a true (parent ∷ path) v.6 (ground arith) (Fits-right h s.nodes a k l r v)
            (fork_right h s.nodes a k l r r v ∙ sym v.1)
          ∙ round_same a k l r parent b path v f w)
    ]

  -- If more than 30 forks are on the way to the leaf for a key, and a node is free, then merk_insert
  -- reports success, and the memory keeps the same tree as before under the same root: nothing has
  -- been put in.
  pub merk_insert_lost :
      (s : Merk D) (root key p : ℕ) (e : D) (t : Tree D) (pool : Pool)
      → Keeps h s.nodes root (some t)
      → 30 < levels key t
      → merk_alloc_node s.pool ≡ ret (p, pool)
      → p ≢ 0
      → root ≢ p
      → Apart p t
      → (u : Merk D) × (merk_insert h s root key e ≡ ret (done, u))
        × (u.nodes root ≡ s.nodes root)
        × Keeps h u.nodes root (some t)
  unfolding merk_insert
  merk_insert_lost s root key p e t pool (a, r, v) lt alloc nz nr np =
      let n = node_of h (tip p key e) in
      let m = write s.nodes p n in
      let u : Merk D = record { nodes = m; pool = pool } in
      let same : m root ≡ s.nodes root = write_other s.nodes p root n nr in
      let r1 : m root ≡ root_of h t = same ∙ r in
      let v1 = Holds-same h s.nodes m t (λ x o. write_other s.nodes p x n (On-ne x p t o np)) v in
      let right_ne : ((m root).right == 0) ≡ false = rw r1 (==-false (Holds-address h m t v1)) in
      let run =
        stays p key u 30 t root true [] v1 lt (root-Fits h m root t r1)
          (root_again h m root t t r1 ∙ sym r1) in
      (
        set_node u root (m root),
        rw
            (
              alloc,
              ==-false nz,
              right_ne,
              descend_root h 30 m key root t r1 v1,
              descend-cut 30 m key t (root ∷ []) v1,
            )
            (run ∙ percolate_root h p u (m root) root),
        write_self m root (m root) ∙ same,
        subst (λ f. Keeps h f root (some t)) (sym (write_same m root)) (a, r1, v1),
      )
