-- ===== src/Rt/Merkle/Tree.antt =====
-- The trees that merkle.c keeps: a leaf for each key, and forks that send the keys below theirs to
-- the left. Each has the address of its node.
use keystone_workspace.Base.{
  ℕ, suc, ◌+◌, ◌≤◌, ◌≡◌, ◌≢◌, ltb, ◌==◌, if◌then◌else◌, Option, none, some, arith, refl, sym, subst,
  ◌∙◌, ◌⊎◌, inl, inr, Bool-cases,
}
use Prim.Native.Nat.{max}
use keystone_workspace.Rt.Merkle.{Node, Sha256, two}

pub data Tree (D : Type 0) : Type 0 where
  tip : ℕ → ℕ → D → Tree D
  fork : ℕ → ℕ → Tree D → Tree D → Tree D

module _ {D : Type 0} where
  abbrev pub address : Tree D → ℕ
  address (tip a k d) = a
  address (fork a k l r) = a

  abbrev pub key_of : Tree D → ℕ
  key_of (tip a k d) = k
  key_of (fork a k l r) = k

  abbrev pub depth : Tree D → ℕ
  depth (tip a k d) = 0
  depth (fork a k l r) = suc (max (depth l) (depth r))

  -- The hash of the leaf to which a key is sent
  abbrev pub reach : ℕ → Tree D → D
  reach j (tip a k d) = d
  reach j (fork a k l r) = if ltb j k then reach j l else reach j r

  -- The hash under a key
  abbrev pub find : ℕ → Tree D → Option D
  find j (tip a k d) = if j == k then some d else none
  find j (fork a k l r) = if ltb j k then find j l else find j r

  -- A key and its hash, put in with the address of its leaf and of a fork
  abbrev pub graft : ℕ → ℕ → ℕ → D → Tree D → Tree D
  graft p q j e (tip a k d) =
      if j == k
      then tip p j e
      else if ltb j k
      then fork q k (tip p j e) (tip a k d)
      else fork q j (tip a k d) (tip p j e)
  graft p q j e (fork a k l r) =
      if ltb j k then fork a k (graft p q j e l) r else fork a k l (graft p q j e r)

  pub find-graft :
      (p q j : ℕ) (e : D) (t : Tree D) (i : ℕ)
      → find i (graft p q j e t) ≡ (if i == j then some e else find i t)
  find-graft p q j e (tip a k d) i = ground arith
  find-graft p q j e (fork a k l r) i =
      ground (arith, find-graft p q j e l i, find-graft p q j e r i)

  pub depth-graft : (p q j : ℕ) (e : D) (t : Tree D) → depth (graft p q j e t) ≤ depth t + 1
  depth-graft p q j e (tip a k d) = ground arith
  depth-graft p q j e (fork a k l r) = ground (arith, depth-graft p q j e l, depth-graft p q j e r)

  -- A key that is there already adds no level.
  pub depth-graft-find :
      (p q j : ℕ) (e : D) (t : Tree D) (d : D)
      → find j t ≡ some d
      → depth (graft p q j e t) ≡ depth t
  depth-graft-find p q j e (tip a k d') d f = ground arith
  depth-graft-find p q j e (fork a k l r) d f =
      ground (arith, depth-graft-find p q j e l d, depth-graft-find p q j e r d)

  pub reach-find : (j : ℕ) (t : Tree D) (d : D) → find j t ≡ some d → reach j t ≡ d
  reach-find j (tip a k d) e h = ground arith
  reach-find j (fork a k l r) e h = ground (arith, reach-find j l e, reach-find j r e)

  -- A node of the tree is at the address; none is.
  abbrev pub On : ℕ → Tree D → Type 0
  On x (tip a k d) = x ≡ a
  On x (fork a k l r) = (x ≡ a) ⊎ (On x l ⊎ On x r)

  abbrev pub Apart : ℕ → Tree D → Type 0
  Apart x (tip a k d) = x ≢ a
  Apart x (fork a k l r) = (x ≢ a) × Apart x l × Apart x r

  -- No node of the one tree is at the address of one of the other.
  abbrev pub Disjoint : Tree D → Tree D → Type 0
  Disjoint (tip a k d) u = Apart a u
  Disjoint (fork a k l r) u = Apart a u × Disjoint l u × Disjoint r u

  pub On-address : (t : Tree D) → On (address t) t
  On-address (tip a k d) = refl
  On-address (fork a k l r) = inl refl

  pub On-ne : (x y : ℕ) (t : Tree D) → On x t → Apart y t → x ≢ y
  On-ne x y (tip a k d) o n e = n (sym e ∙ o)
  On-ne x y (fork a k l r) (inl o) n e = n.0 (sym e ∙ o)
  On-ne x y (fork a k l r) (inr (inl o)) n e = On-ne x y l o n.1 e
  On-ne x y (fork a k l r) (inr (inr o)) n e = On-ne x y r o n.2 e

  pub Disjoint-left : (x : ℕ) (t u : Tree D) → Disjoint t u → On x t → Apart x u
  Disjoint-left x (tip a k d) u n o = subst (λ y. Apart y u) (sym o) n
  Disjoint-left x (fork a k l r) u n (inl o) = subst (λ y. Apart y u) (sym o) n.0
  Disjoint-left x (fork a k l r) u n (inr (inl o)) = Disjoint-left x l u n.1 o
  Disjoint-left x (fork a k l r) u n (inr (inr o)) = Disjoint-left x r u n.2 o

  pub Disjoint-right : (x : ℕ) (t u : Tree D) → Disjoint t u → On x u → Apart x t
  Disjoint-right x (tip a k d) u n o = On-ne x a u o n
  Disjoint-right x (fork a k l r) u n o =
      (On-ne x a u o n.0, Disjoint-right x l u n.1 o, Disjoint-right x r u n.2 o)

  -- What a tree has nothing of, it still has not with the two new nodes.
  pub Apart-graft :
      (p q j : ℕ) (e : D) (x : ℕ) (t : Tree D)
      → x ≢ p
      → x ≢ q
      → Apart x t
      → Apart x (graft p q j e t)
  Apart-graft p q j e x (tip a k d) np nq n = ground arith
  Apart-graft p q j e x (fork a k l r) np nq n =
      ground (arith, Apart-graft p q j e x l, Apart-graft p q j e x r)

  pub Disjoint-graft_right :
      (p q j : ℕ) (e : D) (t u : Tree D)
      → Apart p t
      → Apart q t
      → Disjoint t u
      → Disjoint t (graft p q j e u)
  Disjoint-graft_right p q j e (tip a k d) u np nq n =
      Apart-graft p q j e a u (λ i. np (sym i)) (λ i. nq (sym i)) n
  Disjoint-graft_right p q j e (fork a k l r) u np nq n = (
    Apart-graft p q j e a u (λ i. np.0 (sym i)) (λ i. nq.0 (sym i)) n.0,
    Disjoint-graft_right p q j e l u np.1 nq.1 n.1,
    Disjoint-graft_right p q j e r u np.2 nq.2 n.2,
  )

  pub Disjoint-graft_left :
      (p q j : ℕ) (e : D) (t u : Tree D)
      → Apart p u
      → Apart q u
      → Disjoint t u
      → Disjoint (graft p q j e t) u
  Disjoint-graft_left p q j e (tip a k d) u np nq n = elim (Bool-cases (j == k)) [
    | inl c ↦ rw c np
    | inr c ↦ elim (Bool-cases (ltb j k)) [
      | inl b ↦ rw (c, b) (nq, np, n)
      | inr b ↦ rw (c, b) (nq, n, np)
    ]
  ]
  Disjoint-graft_left p q j e (fork a k l r) u np nq n = elim (Bool-cases (ltb j k)) [
    | inl b ↦ rw b (n.0, Disjoint-graft_left p q j e l u np nq n.1, n.2)
    | inr b ↦ rw b (n.0, n.1, Disjoint-graft_left p q j e r u np nq n.2)
  ]

module _ {D : Type 0} (h : Sha256 D) where
  abbrev pub digest : Tree D → D
  digest (tip a k d) = d
  digest (fork a k l r) = h.sha256 (two (key_of l) (digest l) (key_of r) (digest r))

  -- The node of the tree's top
  abbrev pub node_of : Tree D → Node D
  node_of (tip a k d) = record { ptr = k; hash = d; left = 0; right = 0 }
  node_of (fork a k l r) = record {
    ptr = k;
    hash = digest (fork a k l r);
    left = address l;
    right = address r;
  }

  -- The memory keeps the tree, each node at its own address.
  abbrev pub Holds : (ℕ → Node D) → Tree D → Type 0
  Holds m (tip a k d) = (a ≢ 0) × (m a ≡ node_of (tip a k d))
  Holds m (fork a k l r) =
      (a ≢ 0)
      × (m a ≡ node_of (fork a k l r))
      × Apart a l
      × Apart a r
      × Disjoint l r
      × Holds m l
      × Holds m r

  pub Holds-address : (m : ℕ → Node D) (t : Tree D) → Holds m t → address t ≢ 0
  Holds-address m (tip a k d) v = v.0
  Holds-address m (fork a k l r) v = v.0

  pub Holds-top : (m : ℕ → Node D) (t : Tree D) → Holds m t → m (address t) ≡ node_of t
  Holds-top m (tip a k d) v = v.1
  Holds-top m (fork a k l r) v = v.1

  pub Holds-same :
      (m n : ℕ → Node D) (t : Tree D) → ((x : ℕ) → On x t → n x ≡ m x) → Holds m t → Holds n t
  Holds-same m n (tip a k d) e v = (v.0, e a refl ∙ v.1)
  Holds-same m n (fork a k l r) e (z, t, al, ar, lr, vl, vr) = (
    z,
    e a (inl refl) ∙ t,
    al,
    ar,
    lr,
    Holds-same m n l (λ x o. e x (inr (inl o))) vl,
    Holds-same m n r (λ x o. e x (inr (inr o))) vr,
  )

  pub node_of-signs : (t : Tree D) → ((node_of t).ptr ≡ key_of t) × ((node_of t).hash ≡ digest t)
  node_of-signs (tip a k d) = (refl, refl)
  node_of-signs (fork a k l r) = (refl, refl)
