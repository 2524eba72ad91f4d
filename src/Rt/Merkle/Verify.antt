-- ===== src/Rt/Merkle/Verify.antt =====
-- merk_verify (runtime/crypto/merkle.c) on a memory that holds a tree and does not change.
use keystone_workspace.Base.{
  ℕ, zero, suc, ◌+◌, ◌*◌, ◌<◌, ◌≡◌, ◌≢◌, true, false, Bool-cases, ltb, if◌then◌else◌, some, arith,
  refl, inl, inr,
}
use keystone_workspace.Rt.Merkle.{Node, Sha256, verify_loop, merk_verify_single_node}
use keystone_workspace.Rt.Merkle.Tree.{
  Tree, tip, fork, depth, reach, node_of, Holds, Holds-address, Holds-top,
}

module _ {D : Type 0} (h : Sha256 D) where
  pub same_refl : (d : D) → h.same d d ≡ true
  same_refl d = (h.same_iff d d).1 refl

  -- A node fits the two nodes that it was hashed from.
  pub fork-verifies :
      (a k : ℕ) (l r : Tree D)
      → merk_verify_single_node h
          (node_of h (fork a k l r))
          (some (node_of h l))
          (some (node_of h r))
        ≡ true
  unfolding merk_verify_single_node
  fork-verifies a k (tip _ _ _) (tip _ _ _) = same_refl _
  fork-verifies a k (tip _ _ _) (fork _ _ _ _) = same_refl _
  fork-verifies a k (fork _ _ _ _) (tip _ _ _) = same_refl _
  fork-verifies a k (fork _ _ _ _) (fork _ _ _ _) = same_refl _

  -- A round at a node with two children
  pub verify_loop-fork :
      (fuel : ℕ) (reads : ℕ → ℕ → Node D) (i : ℕ) (node left right : Node D) (key : ℕ) (hash : D)
      → node.left ≢ 0
      → node.right ≢ 0
      → let l = reads (2 * i) node.left in
        let r = reads (2 * i + 1) node.right in
        verify_loop h (suc fuel) reads i node left right key hash ≡ (
          if merk_verify_single_node h node (some l) (some r)
          then verify_loop h fuel reads (i + 1) (if ltb key node.ptr then l else r) l r key hash
          else some false)
  unfolding verify_loop
  verify_loop-fork fuel reads i node left right key hash nl nr = ground arith

  pub verify_loop-Holds :
      (fuel : ℕ) (m : ℕ → Node D) (i : ℕ) (t : Tree D) (left right : Node D) (key : ℕ) (hash : D)
      → Holds h m t
      → depth t < fuel
      → verify_loop h fuel (λ _. m) i (node_of h t) left right key hash
        ≡ some (h.same hash (reach key t))
  verify_loop-Holds zero m i t left right key hash v lt = absurd (omega arith)
  verify_loop-Holds (suc fuel) m i (tip a k d) left right key hash v lt = unfold verify_loop in refl
  verify_loop-Holds (suc fuel) m i (fork a k l r) left right key hash (z, t, al, ar, lr, vl, vr)
        lt =
      rw
        (
          verify_loop-fork fuel (λ _. m) i (node_of h (fork a k l r)) left right key hash
              (Holds-address h m l vl) (Holds-address h m r vr),
          Holds-top h m l vl,
          Holds-top h m r vr,
          fork-verifies a k l r,
        )
        (elim (Bool-cases (ltb key k)) [
          | inl e ↦ rw e (verify_loop-Holds fuel m (i + 1) l _ _ key hash vl (omega arith))
          | inr e ↦ rw e (verify_loop-Holds fuel m (i + 1) r _ _ key hash vr (omega arith))
        ])
