-- ===== src/Rt/Merkle/Grow.antt =====
-- What merk_insert makes of a tree below the root (runtime/crypto/merkle.c): the new leaf, and the
-- walk back up.
use keystone_workspace.Base.{
  ℕ, ◌==◌, ◌≡◌, ◌≢◌, Bool, true, not, Bool-cases, ltb, List, ◌∷◌, refl, sym, ◌∙◌, inl, inr,
}
use keystone_workspace.Base.Outcome.{ret}
use keystone_workspace.Rt.Merkle.{Sha256, merk_hash_single_node}
use keystone_workspace.Rt.Merkle.Alloc.{Pool, merk_alloc_node, merk_free_node}
use keystone_workspace.Rt.Merkle.Insert.{
  Merk, child, set_child, set_node, write, has_sibling, joined, hash_placed, merk_splice_node,
  percolate,
}
use keystone_workspace.Rt.Merkle.Tree.{
  Tree, tip, fork, address, graft, On, Apart, node_of, Holds, Holds-top,
}
use keystone_workspace.Rt.Merkle.Climb.{
  Fits, sibling_of, percolate_leaf, percolate_inner, Fits-same,
}
use keystone_workspace.Rt.Merkle.Path.{way, ==-false, write_self, write_other, write_same}

-- A new node at `p` for the key, and a slot `q` that the allocator gives next
module _ {D : Type 0} (h : Sha256 D) (s : Merk D) (p q key : ℕ) (e : D) where
  pub record Supplied : Type 0 where
    pub at_new : s.nodes p ≡ node_of h (tip p key e)
    pub new_ne : p ≢ 0
    pub spare_ne : q ≢ 0
    pub apart : p ≢ q
    pub pool : Pool
    pub spare : merk_alloc_node s.pool ≡ ret (q, pool)

  -- The allocator takes back each node of the tree.
  abbrev pub Frees : Tree D → Type 0
  Frees t = (x : ℕ) → On x t → (pool : Pool) × (merk_free_node s.pool x ≡ ret pool)

  -- `u` holds the tree with the key in it, and has no other node changed.
  pub record Grown (t : Tree D) (u : Merk D) : Type 0 where
    pub holds : Holds h u.nodes (graft p q key e t)
    pub away : (x : ℕ) → Apart x t → x ≢ p → x ≢ q → u.nodes x ≡ s.nodes x

  module _ (sup : Supplied) where
    pub splice_new :
        (a k : ℕ) (d : D)
        → Holds h s.nodes (tip a k d)
        → Frees (tip a k d)
        → Apart p (tip a k d)
        → Apart q (tip a k d)
        → (u : Merk D) × (merk_splice_node h s a p ≡ ret (address (graft p q key e (tip a k d)), u))
          × Grown (tip a k d) u
    unfolding merk_splice_node merk_hash_single_node
    splice_new a k d v f np nq =
        let (freed, fe) = f a refl in
        let n = node_of h (tip p key e) in
        let l = node_of h (tip a k d) in
        elim (Bool-cases (key == k)) [
          | inl c ↦ (
            record s { pool = freed },
            rw (sup.at_new, v.1, c, fe) refl,
            record { holds = rw c (sup.new_ne, sup.at_new); away = λ x xa xp xq. refl },
          )
          | inr c ↦ elim (Bool-cases (ltb key k)) [
            | inl b ↦
                let u = write s.nodes q (joined h p n a l) in
                (
                  record { nodes = u; pool = sup.pool },
                  rw (sup.at_new, v.1, c, sup.spare, ==-false sup.spare_ne, b) refl,
                  record {
                    holds =
                        rw (c, b)
                          (
                            sup.spare_ne,
                            write_self s.nodes q _,
                            (λ i. sup.apart (sym i)),
                            nq,
                            np,
                            (sup.new_ne, write_other s.nodes q p _ sup.apart ∙ sup.at_new),
                            (v.0, write_other s.nodes q a _ (λ i. nq (sym i)) ∙ v.1),
                          );
                    away = λ x xa xp xq. write_other s.nodes q x _ xq;
                  },
                )
            | inr b ↦
                let u = write s.nodes q (joined h a l p n) in
                (
                  record { nodes = u; pool = sup.pool },
                  rw (sup.at_new, v.1, c, sup.spare, ==-false sup.spare_ne, b) refl,
                  record {
                    holds =
                        rw (c, b)
                          (
                            sup.spare_ne,
                            write_self s.nodes q _,
                            nq,
                            (λ i. sup.apart (sym i)),
                            (λ i. np (sym i)),
                            (v.0, write_other s.nodes q a _ (λ i. nq (sym i)) ∙ v.1),
                            (sup.new_ne, write_other s.nodes q p _ sup.apart ∙ sup.at_new),
                          );
                    away = λ x xa xp xq. write_other s.nodes q x _ xq;
                  },
                )
          ]
        ]

  -- The tree hangs under child `b` of the node at `parent`, which has nothing of it or of the new
  -- nodes, nor has the sibling.
  pub record Under (t : Tree D) (parent : ℕ) (b : Bool) : Type 0 where
    pub fits : Fits h s.nodes parent (address t) b
    pub parent_apart : Apart parent t × (parent ≢ p) × (parent ≢ q)
    pub far :
        has_sibling (s.nodes parent) ≡ true
        → let x = child (s.nodes parent) (not b) in Apart x t × (x ≢ p) × (x ≢ q)

  -- The run comes from the leaf up to `parent`, which then has the new tree as child `b`.
  abbrev pub Climbs : Tree D → ℕ → Bool → List ℕ → Merk D → Type 0
  Climbs t parent b path u =
      let (leaf, above) = way key t (parent ∷ path) in
      percolate h p s (s.nodes leaf) leaf above
      ≡ percolate h p u
          (hash_placed h (set_child (s.nodes parent) b (address (graft p q key e t))) b
            (node_of h (graft p q key e t)) (sibling_of s.nodes parent b))
          parent path

  pub climb_leaf :
      (a k : ℕ) (d : D) (parent : ℕ) (b : Bool) (path : List ℕ) (u : Merk D)
      → Holds h s.nodes (tip a k d)
      → Under (tip a k d) parent b
      → merk_splice_node h s a p ≡ ret (address (graft p q key e (tip a k d)), u)
      → Grown (tip a k d) u
      → Climbs (tip a k d) parent b path u
  climb_leaf a k d parent b path u v w r g =
      percolate_leaf h p s u (s.nodes a) a parent (address (graft p q key e (tip a k d))) b path
        w.fits (rw v.1 refl) r
      ∙ rw
          (
            write_same u.nodes (address (graft p q key e (tip a k d))),
            Holds-top h u.nodes (graft p q key e (tip a k d)) g.holds,
          )
          refl

  -- The round above a fork, in a state that has changed only below it
  pub climb_fork :
      (a k : ℕ) (l r l' r' : Tree D) (parent : ℕ) (b : Bool) (path : List ℕ) (u : Merk D)
      → Under (fork a k l r) parent b
      → address l' ≢ 0
      → u.nodes a ≡ s.nodes a
      → ((x : ℕ) → Apart x (fork a k l r) → x ≢ p → x ≢ q → u.nodes x ≡ s.nodes x)
      → percolate h p u (node_of h (fork a k l' r')) a (parent ∷ path)
        ≡ percolate h p
            (set_node u a (node_of h (fork a k l' r')))
            (hash_placed h
              (set_child (s.nodes parent) b a)
              b
              (node_of h (fork a k l' r'))
              (sibling_of s.nodes parent b))
            parent
            path
  climb_fork a k l r l' r' parent b path u w z sa sx =
      let ep = sx parent w.parent_apart.0 w.parent_apart.1 w.parent_apart.2 in
      let (f, es) =
        Fits-same h s.nodes u.nodes parent a b ep sa (λ c. sx _ (w.far c).0 (w.far c).1 (w.far c).2)
          w.fits in
      percolate_inner h p u (node_of h (fork a k l' r')) a parent b path f (rw (==-false z) refl)
      ∙ rw (es, ep) refl
