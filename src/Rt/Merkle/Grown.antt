-- ===== src/Rt/Merkle/Grown.antt =====
-- The run of merk_insert from a leaf up to the parent of a tree (runtime/crypto/merkle.c).
use keystone_workspace.Base.{
  ℕ, ◌≡◌, Bool, true, false, Bool-cases, ltb, List, ◌∷◌, arith, refl, sym, ◌∙◌, inl, inr,
}
use keystone_workspace.Rt.Merkle.{Node, Sha256}
use keystone_workspace.Rt.Merkle.Insert.{Merk, set_node}
use keystone_workspace.Rt.Merkle.Tree.{
  Tree, tip, fork, address, graft, Apart, node_of, Holds, Holds-address, Holds-top, Holds-same,
  On-ne, On-address, Apart-graft, Disjoint-left, Disjoint-right, Disjoint-graft_left,
  Disjoint-graft_right,
}
use keystone_workspace.Rt.Merkle.Verify.{fork-verifies}
use keystone_workspace.Rt.Merkle.Climb.{Fits}
use keystone_workspace.Rt.Merkle.Path.{fork_left, fork_right, ==-false, write_self, write_other}
use keystone_workspace.Rt.Merkle.Grow.{
  Supplied, Frees, Grown, Under, Climbs, splice_new, climb_leaf, climb_fork,
}

-- A fork fits its children.
module _ {D : Type 0} (h : Sha256 D) (m : ℕ → Node D) (a k : ℕ) (l r : Tree D)
    (v : Holds h m (fork a k l r)) where
  pub Fits-left : Fits h m a (address l) false
  Fits-left =
      let (z, t, al, ar, lr, vl, vr) = v in
      record {
        side = rw t (==-false (On-ne _ _ r (On-address r) (Disjoint-left _ l r lr (On-address l))));
        is_child = rw t refl;
        verified = λ c. rw (t, Holds-top h m l vl, Holds-top h m r vr) (fork-verifies h a k l r);
      }

  pub Fits-right : Fits h m a (address r) true
  Fits-right =
      let (z, t, al, ar, lr, vl, vr) = v in
      record {
        side = rw t (ground arith);
        is_child = rw t refl;
        verified = λ c. rw (t, Holds-top h m l vl, Holds-top h m r vr) (fork-verifies h a k l r);
      }

module _ {D : Type 0} (h : Sha256 D) (s : Merk D) (p q key : ℕ) (e : D) where
  module _ (a k : ℕ) (l r : Tree D) (v : Holds h s.nodes (fork a k l r)) where
    -- Each child hangs under the fork.
    Under-left : Apart p (fork a k l r) → Apart q (fork a k l r) → Under h s p q key e l a false
    Under-left np nq =
        let (z, t, al, ar, lr, vl, vr) = v in
        record {
          fits = Fits-left h s.nodes a k l r v;
          parent_apart = (al, (λ i. np.0 (sym i)), (λ i. nq.0 (sym i)));
          far = λ c. rw t (
            Disjoint-right _ l r lr (On-address r),
            On-ne _ p r (On-address r) np.2,
            On-ne _ q r (On-address r) nq.2,
          );
        }

    Under-right : Apart p (fork a k l r) → Apart q (fork a k l r) → Under h s p q key e r a true
    Under-right np nq =
        let (z, t, al, ar, lr, vl, vr) = v in
        record {
          fits = Fits-right h s.nodes a k l r v;
          parent_apart = (ar, (λ i. np.0 (sym i)), (λ i. nq.0 (sym i)));
          far = λ c. rw t (
            Disjoint-left _ l r lr (On-address l),
            On-ne _ p l (On-address l) np.1,
            On-ne _ q l (On-address l) nq.1,
          );
        }

    -- The fork is written above the child that has grown.
    Grown-left :
        (u : Merk D)
        → Apart p (fork a k l r)
        → Apart q (fork a k l r)
        → ltb key k ≡ true
        → Grown h s p q key e l u
        → Grown h s p q key e
            (fork a k l r)
            (set_node u a (node_of h (fork a k (graft p q key e l) r)))
    Grown-left u np nq c g =
        let (z, t, al, ar, lr, vl, vr) = v in
        let l' = graft p q key e l in
        let n = node_of h (fork a k l' r) in
        let al' = Apart-graft p q key e a l (λ i. np.0 (sym i)) (λ i. nq.0 (sym i)) al in
        record {
          holds = rw c (
            z,
            write_self u.nodes a n,
            al',
            ar,
            Disjoint-graft_left p q key e l r np.2 nq.2 lr,
            Holds-same h u.nodes _ l' (λ x o. write_other u.nodes a x n (On-ne x a l' o al'))
                g.holds,
            Holds-same h s.nodes _ r
                (λ x o.
                  write_other u.nodes a x n (On-ne x a r o ar)
                  ∙ g.away x (Disjoint-right x l r lr o) (On-ne x p r o np.2) (On-ne x q r o nq.2))
                vr,
          );
          away = λ x xa xp xq. write_other u.nodes a x n xa.0 ∙ g.away x xa.1 xp xq;
        }

    Grown-right :
        (u : Merk D)
        → Apart p (fork a k l r)
        → Apart q (fork a k l r)
        → ltb key k ≡ false
        → Grown h s p q key e r u
        → Grown h s p q key e
            (fork a k l r)
            (set_node u a (node_of h (fork a k l (graft p q key e r))))
    Grown-right u np nq c g =
        let (z, t, al, ar, lr, vl, vr) = v in
        let r' = graft p q key e r in
        let n = node_of h (fork a k l r') in
        let ar' = Apart-graft p q key e a r (λ i. np.0 (sym i)) (λ i. nq.0 (sym i)) ar in
        record {
          holds = rw c (
            z,
            write_self u.nodes a n,
            al,
            ar',
            Disjoint-graft_right p q key e l r np.1 nq.1 lr,
            Holds-same h s.nodes _ l
                (λ x o.
                  write_other u.nodes a x n (On-ne x a l o al)
                  ∙ g.away x (Disjoint-left x l r lr o) (On-ne x p l o np.1) (On-ne x q l o nq.1))
                vl,
            Holds-same h u.nodes _ r' (λ x o. write_other u.nodes a x n (On-ne x a r' o ar'))
                g.holds,
          );
          away = λ x xa xp xq. write_other u.nodes a x n xa.0 ∙ g.away x xa.2 xp xq;
        }

  -- From the leaf for the key up to the parent of the tree, the tree gets the key.
  pub climbs :
      (t : Tree D) (parent : ℕ) (b : Bool) (path : List ℕ)
      → Supplied h s p q key e
      → Holds h s.nodes t
      → Frees h s p q key e t
      → Apart p t
      → Apart q t
      → Under h s p q key e t parent b
      → (u : Merk D) × Grown h s p q key e t u × Climbs h s p q key e t parent b path u
  climbs (tip a k d) parent b path sup v f np nq w =
      let (u, r, g) = splice_new h s p q key e sup a k d v f np nq in
      (u, g, climb_leaf h s p q key e a k d parent b path u v w r g)
  climbs (fork a k l r) parent b path sup v f np nq w =
      let (z, t, al, ar, lr, vl, vr) = v in
      elim (Bool-cases (ltb key k)) [
        | inl c ↦
            let (u, g, run) =
              climbs l a false (parent ∷ path) sup vl (λ x o. f x (inr (inl o))) np.1 nq.1
                (Under-left a k l r v np nq) in
            (
              set_node u a (node_of h (fork a k (graft p q key e l) r)),
              Grown-left a k l r v u np nq c g,
              rw c (
                  run
                  ∙ rw (fork_left h s.nodes a k l r (graft p q key e l) v) (
                      climb_fork h s p q key e a k l r (graft p q key e l) r parent b path u w
                        (Holds-address h u.nodes _ g.holds)
                        (g.away a al (λ i. np.0 (sym i)) (λ i. nq.0 (sym i)))
                        (λ x xa xp xq. g.away x xa.1 xp xq))),
            )
        | inr c ↦
            let (u, g, run) =
              climbs r a true (parent ∷ path) sup vr (λ x o. f x (inr (inr o))) np.2 nq.2
                (Under-right a k l r v np nq) in
            (
              set_node u a (node_of h (fork a k l (graft p q key e r))),
              Grown-right a k l r v u np nq c g,
              rw c (
                  run
                  ∙ rw (fork_right h s.nodes a k l r (graft p q key e r) v) (
                      climb_fork h s p q key e a k l r l (graft p q key e r) parent b path u w
                        (Holds-address h s.nodes l vl)
                        (g.away a ar (λ i. np.0 (sym i)) (λ i. nq.0 (sym i)))
                        (λ x xa xp xq. g.away x xa.2 xp xq))),
            )
      ]
