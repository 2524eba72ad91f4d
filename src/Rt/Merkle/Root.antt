-- ===== src/Rt/Merkle/Root.antt =====
-- The tree under a root, the room for two more nodes, and merk_verify (runtime/crypto/merkle.c).
use keystone_workspace.Base.{
  ℕ, suc, ◌≤◌, ◌<◌, ◌==◌, ◌≡◌, ◌≢◌, true, false, ltb, if◌then◌else◌, Option, none, some, [], ◌∷◌,
  arith, refl, ap,
}
use keystone_workspace.Base.Outcome.{ret}
use keystone_workspace.Rt.Merkle.{
  Node, Sha256, one, merk_verify, merk_verify_single_node, merk_hash_single_node,
}
use keystone_workspace.Rt.Merkle.Alloc.{Pool, merk_alloc_node, merk_free_node}
use keystone_workspace.Rt.Merkle.Insert.{
  done, Merk, set_child, set_node, descend, has_sibling, hash_placed, percolate,
}
use keystone_workspace.Rt.Merkle.Tree.{
  Tree, tip, fork, address, key_of, depth, find, reach-find, find-graft, depth-graft,
  depth-graft-find, graft, On, Apart, digest, node_of, Holds, Holds-address, Holds-top,
  node_of-signs,
}
use keystone_workspace.Rt.Merkle.Verify.{same_refl, verify_loop-Holds}
use keystone_workspace.Rt.Merkle.Climb.{Fits, sibling_of}
use keystone_workspace.Rt.Merkle.Path.{==-false}

ltb_zero : (k : ℕ) → ltb k 0 ≡ false
ltb_zero k = ground arith

module _ {D : Type 0} where
  -- The hash under a key, and the depth, of a tree that may be empty
  abbrev pub content : Option (Tree D) → ℕ → Option D
  content none i = none
  content (some t) i = find i t

  abbrev pub height : Option (Tree D) → ℕ
  height none = 0
  height (some t) = suc (depth t)

  abbrev pub added : ℕ → ℕ → ℕ → D → Option (Tree D) → Tree D
  added p q key e none = tip p key e
  added p q key e (some t) = graft p q key e t

  abbrev pub AllApart : ℕ → Option (Tree D) → Type 0
  AllApart x none = Unit
  AllApart x (some t) = Apart x t

  abbrev pub Somewhere : ℕ → Option (Tree D) → Type 0
  Somewhere x none = ⊥
  Somewhere x (some t) = On x t

  pub content-added :
      (p q key : ℕ) (e : D) (o : Option (Tree D)) (i : ℕ)
      → content (some (added p q key e o)) i ≡ (if i == key then some e else content o i)
  content-added p q key e none i = refl
  content-added p q key e (some t) i = find-graft p q key e t i

  pub depth-added :
      (p q key : ℕ) (e : D) (o : Option (Tree D)) → depth (added p q key e o) ≤ height o
  depth-added p q key e none = omega arith
  depth-added p q key e (some t) = omega (arith, depth-graft p q key e t)

  pub height-added :
      (p q key : ℕ) (e d : D) (o : Option (Tree D))
      → content o key ≡ some d
      → height (some (added p q key e o)) ≡ height o
  height-added p q key e d none c = cc
  height-added p q key e d (some t) c = ap suc (depth-graft-find p q key e t d c)

  pub no_sibling : (r : Node D) → r.left ≡ 0 → has_sibling r ≢ true
  no_sibling r l c = ground arith

module _ {D : Type 0} (h : Sha256 D) where
  -- The root of a tree
  abbrev pub root_of : Tree D → Node D
  root_of t = record {
    ptr = 0;
    hash = h.sha256 (one (key_of t) (digest h t));
    left = 0;
    right = address t;
  }

  -- The memory keeps the tree under the root.
  abbrev pub Keeps : (ℕ → Node D) → ℕ → Option (Tree D) → Type 0
  Keeps m root none = ((m root).ptr ≡ 0) × ((m root).left ≡ 0) × ((m root).right ≡ 0)
  Keeps m root (some t) = Apart root t × (m root ≡ root_of t) × Holds h m t

  -- The allocator gives two nodes, `p` and then `q`, that are neither of the tree nor the root, and
  -- takes back each node of the tree after the first.
  pub record Room (s : Merk D) (root : ℕ) (o : Option (Tree D)) (p q : ℕ) : Type 0 where
    pub first : Pool
    pub second : Pool
    pub gives_first : merk_alloc_node s.pool ≡ ret (p, first)
    pub gives_second : merk_alloc_node first ≡ ret (q, second)
    pub not_null : (p ≢ 0) × (q ≢ 0) × (p ≢ q)
    pub not_root : (root ≢ p) × (root ≢ q)
    pub unused : AllApart p o × AllApart q o
    pub takes_back : (x : ℕ) → Somewhere x o → (pool : Pool) × (merk_free_node first x ≡ ret pool)

  root-verifies :
      (t : Tree D) → merk_verify_single_node h (root_of t) none (some (node_of h t)) ≡ true
  unfolding merk_verify_single_node
  root-verifies (tip a k d) = same_refl h _
  root-verifies (fork a k l r) = same_refl h _

  pub merk_verify-Keeps :
      (fuel : ℕ) (m : ℕ → Node D) (stack : Node D) (root : ℕ) (t : Tree D) (i : ℕ) (hash d : D)
      → Keeps m root (some t)
      → depth t < fuel
      → find i t ≡ some d
      → merk_verify h fuel (λ _. m) stack (m root) i hash ≡ some (h.same hash d)
  unfolding merk_verify
  merk_verify-Keeps fuel m stack root t i hash d (a, r, v) lt f =
      rw (r, ==-false (Holds-address h m t v), Holds-top h m t v, root-verifies t)
        (rw (← (reach-find i t d f))
          (verify_loop-Holds h fuel m 1 t stack (node_of h t) i hash v lt))

  -- The root's copy, hashed again
  pub root_again :
      (m : ℕ → Node D) (root : ℕ) (t u : Tree D)
      → m root ≡ root_of t
      → hash_placed h
          (set_child (m root) true (address u))
          true
          (node_of h u)
          (sibling_of m root true)
        ≡ root_of u
  unfolding merk_hash_single_node
  root_again m root t u r = rw (r, (node_of-signs h u).0, (node_of-signs h u).1) refl

  pub root-Fits :
      (m : ℕ → Node D) (root : ℕ) (t : Tree D) → m root ≡ root_of t → Fits h m root (address t) true
  root-Fits m root t r = record {
    side = rw r (ground arith);
    is_child = rw r refl;
    verified = λ c. absurd (no_sibling (m root) (rw r refl) c);
  }

  -- The first step down, from the root, whose key is 0
  pub descend_root :
      (n : ℕ) (m : ℕ → Node D) (key root : ℕ) (t : Tree D)
      → m root ≡ root_of t
      → Holds h m t
      → descend (suc n) m key root [] ≡ descend n m key (address t) (root ∷ [])
  unfolding descend
  descend_root n m key root t r v = rw (r, ltb_zero key, ==-false (Holds-address h m t v)) refl

  pub percolate_root :
      (new_node : ℕ) (s : Merk D) (curr : Node D) (root : ℕ)
      → percolate h new_node s curr root [] ≡ ret (done, set_node s root curr)
  unfolding percolate
  percolate_root new_node s curr root = refl
