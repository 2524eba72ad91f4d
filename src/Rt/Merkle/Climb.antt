-- ===== src/Rt/Merkle/Climb.antt =====
-- One round of the walk back up in merk_insert (runtime/crypto/merkle.c), on a memory in which the
-- parent fits its children.
use keystone_workspace.Base.{
  ℕ, ◌==◌, ◌≡◌, Bool, true, false, not, ◌&&◌, Bool-cases, if◌then◌else◌, Option, none, some, List,
  ◌∷◌, refl, ==_iff, sym, ap, ◌∙◌, inl, inr,
}
use keystone_workspace.Base.Outcome.{ret}
use keystone_workspace.Rt.Merkle.{Node, Sha256, is_leaf}
use keystone_workspace.Rt.Merkle.Insert.{
  Merk, child, set_child, set_node, has_sibling, verify_placed, hash_placed, put_at_leaf,
  merk_splice_node, percolate,
}

module _ {D : Type 0} where
  -- The sibling of child `b`, if there is one
  abbrev pub sibling_of : (ℕ → Node D) → ℕ → Bool → Option (Node D)
  sibling_of m parent b =
      if has_sibling (m parent) then some (m (child (m parent) (not b))) else none

  set_child_same : (n : Node D) (b : Bool) → set_child n b (child n b) ≡ n
  set_child_same n true = refl
  set_child_same n false = refl

  child-set_child : (n : Node D) (b : Bool) (p : ℕ) → child (set_child n b p) b ≡ p
  child-set_child n true p = refl
  child-set_child n false p = refl

module _ {D : Type 0} (h : Sha256 D) where
  -- `node` is child `b` of the node at `parent`, and its hash and that of its sibling are in it.
  pub record Fits (m : ℕ → Node D) (parent node : ℕ) (b : Bool) : Type 0 where
    pub side : ((m parent).right == node) ≡ b
    pub is_child : child (m parent) b ≡ node
    pub verified :
        has_sibling (m parent) ≡ true
        → verify_placed h (m parent) b (m node) (m (child (m parent) (not b))) ≡ true

  passes : (a b : Bool) → (a ≡ true → b ≡ true) → (a && not b) ≡ false
  passes true b f = rw (f refl)
  passes false b f = refl

  pub percolate_step :
      (new_node : ℕ) (s t : Merk D) (curr c q : Node D) (node parent p : ℕ) (b : Bool)
      (path : List ℕ)
      → Fits s.nodes parent node b
      → put_at_leaf h new_node curr node (s.nodes parent) b s ≡ ret (p, c, q, t)
      → p ≡ child q b
      → percolate h new_node s curr node (parent ∷ path)
        ≡ percolate h new_node
            (set_node t p c)
            (hash_placed h q b c (sibling_of s.nodes parent b))
            parent
            path
  unfolding percolate
  percolate_step new_node s t curr c q node parent p b path f e i =
      rw (f.side, passes (has_sibling (s.nodes parent)) _ f.verified, e, (==_iff _ _).1 i) refl

  pub percolate_leaf :
      (new_node : ℕ) (s t : Merk D) (curr : Node D) (node parent p : ℕ) (b : Bool) (path : List ℕ)
      → Fits s.nodes parent node b
      → is_leaf curr ≡ true
      → merk_splice_node h s node new_node ≡ ret (p, t)
      → percolate h new_node s curr node (parent ∷ path)
        ≡ percolate h new_node
            (set_node t p (t.nodes p))
            (hash_placed h
              (set_child (s.nodes parent) b p)
              b
              (t.nodes p)
              (sibling_of s.nodes parent b))
            parent
            path
  percolate_leaf new_node s t curr node parent p b path f l e =
      percolate_step new_node s t curr (t.nodes p) (set_child (s.nodes parent) b p) node parent p b
        path f (rw (l, e) refl) (sym (child-set_child (s.nodes parent) b p))

  -- Above the leaf: `node`, which has children, is written, and the parent has its hash.
  pub percolate_inner :
      (new_node : ℕ) (s : Merk D) (curr : Node D) (node parent : ℕ) (b : Bool) (path : List ℕ)
      → Fits s.nodes parent node b
      → is_leaf curr ≡ false
      → percolate h new_node s curr node (parent ∷ path)
        ≡ percolate h new_node
            (set_node s node curr)
            (hash_placed h (set_child (s.nodes parent) b node) b curr (sibling_of s.nodes parent b))
            parent
            path
  percolate_inner new_node s curr node parent b path f l =
      percolate_step new_node s s curr curr (s.nodes parent) node parent node b path f (rw l refl)
        (sym f.is_child)
      ∙ ap
          (λ (n : Node D).
            percolate h new_node (set_node s node curr)
              (hash_placed h n b curr (sibling_of s.nodes parent b)) parent path)
          (sym (set_child_same (s.nodes parent) b) ∙ ap (set_child (s.nodes parent) b) f.is_child)

  -- The round is the same in a memory that has the three nodes.
  pub Fits-same :
      (m n : ℕ → Node D) (parent node : ℕ) (b : Bool)
      → n parent ≡ m parent
      → n node ≡ m node
      → (has_sibling (m parent) ≡ true
          → n (child (m parent) (not b)) ≡ m (child (m parent) (not b)))
      → Fits m parent node b
      → Fits n parent node b × (sibling_of n parent b ≡ sibling_of m parent b)
  Fits-same m n parent node b ep en es f = (
    record {
      side = rw ep f.side;
      is_child = rw ep f.is_child;
      verified = λ c.
          let d : has_sibling (m parent) ≡ true = rw (← ep) c in rw (ep, en, es d) (f.verified d);
    },
    elim (Bool-cases (has_sibling (m parent))) [
      | inl c ↦ rw (ep, c, es c) refl
      | inr c ↦ rw (ep, c) refl
    ],
  )
