-- ===== src/Rt/Merkle/Path.antt =====
-- The walk of merk_insert down to a leaf, and the node of a fork when one of its children is another
-- tree (runtime/crypto/merkle.c).
use keystone_workspace.Base.{
  ℕ, zero, suc, ◌≤◌, ◌==◌, ◌≡◌, ◌≢◌, true, false, Bool-cases, ltb, if◌then◌else◌, List, ◌∷◌, arith,
  refl, fun_ext, inl, inr,
}
use keystone_workspace.Rt.Merkle.{Node, Sha256, merk_hash_single_node}
use keystone_workspace.Rt.Merkle.Insert.{set_child, write, descend, hash_placed}
use keystone_workspace.Rt.Merkle.Tree.{
  Tree, tip, fork, address, depth, node_of, Holds, Holds-address, Holds-top, node_of-signs,
}
use keystone_workspace.Rt.Merkle.Climb.{sibling_of}

pub ==-false : {p q : ℕ} → p ≢ q → (p == q) ≡ false
==-false {p} {q} n = ground arith

module _ {D : Type 0} where
  -- The address of the leaf for a key, and those above it, the last one first
  abbrev pub way : ℕ → Tree D → List ℕ → ℕ × List ℕ
  way j (tip a k d) path = (a, path)
  way j (fork a k l r) path = if ltb j k then way j l (a ∷ path) else way j r (a ∷ path)

  pub write_self : (m : ℕ → Node D) (p : ℕ) (n : Node D) → write m p n p ≡ n
  write_self m p n = ground arith

  pub write_other : (m : ℕ → Node D) (p x : ℕ) (n : Node D) → x ≢ p → write m p n x ≡ m x
  write_other m p x n ne = rw (==-false ne) refl

  pub write_same : (m : ℕ → Node D) (p : ℕ) → write m p (m p) ≡ m
  write_same m p = fun_ext λ x. ground arith

module _ {D : Type 0} (h : Sha256 D) where
  pub descend-Holds :
      (rounds : ℕ) (m : ℕ → Node D) (j : ℕ) (t : Tree D) (path : List ℕ)
      → Holds h m t
      → depth t ≤ rounds
      → descend rounds m j (address t) path ≡ way j t path
  unfolding descend
  descend-Holds zero m j (tip a k d) path v le = refl
  descend-Holds zero m j (fork a k l r) path v le = absurd (omega arith)
  descend-Holds (suc n) m j (tip a k d) path v le = rw v.1 (ground arith)
  descend-Holds (suc n) m j (fork a k l r) path (z, t, al, ar, lr, vl, vr) le =
      rw t (elim (Bool-cases (ltb j k)) [
        | inl c ↦ rw c (ground (arith, Holds-address h m l vl, descend-Holds n m j l (a ∷ path) vl))
        | inr c ↦ rw c (ground (arith, Holds-address h m r vr, descend-Holds n m j r (a ∷ path) vr))
      ])

  -- A fork with another child has the hash of its two children.
  pub fork_left :
      (m : ℕ → Node D) (a k : ℕ) (l r l' : Tree D)
      → Holds h m (fork a k l r)
      → hash_placed h
          (set_child (m a) false (address l'))
          false
          (node_of h l')
          (sibling_of m a false)
        ≡ node_of h (fork a k l' r)
  unfolding merk_hash_single_node
  fork_left m a k l r l' (z, t, al, ar, lr, vl, vr) =
      rw
        (
          t,
          ==-false (Holds-address h m l vl),
          ==-false (Holds-address h m r vr),
          Holds-top h m r vr,
          (node_of-signs h l').0,
          (node_of-signs h l').1,
          (node_of-signs h r).0,
          (node_of-signs h r).1,
        )
        refl

  pub fork_right :
      (m : ℕ → Node D) (a k : ℕ) (l r r' : Tree D)
      → Holds h m (fork a k l r)
      → hash_placed h (set_child (m a) true (address r')) true (node_of h r') (sibling_of m a true)
        ≡ node_of h (fork a k l r')
  unfolding merk_hash_single_node
  fork_right m a k l r r' (z, t, al, ar, lr, vl, vr) =
      rw
        (
          t,
          ==-false (Holds-address h m l vl),
          ==-false (Holds-address h m r vr),
          Holds-top h m l vl,
          (node_of-signs h l).0,
          (node_of-signs h l).1,
          (node_of-signs h r').0,
          (node_of-signs h r').1,
        )
        refl
