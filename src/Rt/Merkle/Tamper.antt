-- ===== src/Rt/Merkle/Tamper.antt =====
-- merk_verify against a memory that others write to (runtime/crypto/merkle.c): each read may give
-- any node.
use keystone_workspace.Base.{
  ℕ, zero, suc, ◌+◌, ◌*◌, ◌<◌, ◌≡◌, ◌≢◌, ◌&&◌, Bool, true, false, Bool-cases, ltb, ◌==◌,
  if◌then◌else◌, List, Option, none, some, arith, refl, ◌∙◌, inl, inr, ap,
}
use keystone_workspace.Rt.Merkle.{
  Message, Node, Sha256, empty, one, two, page, message, present, is_leaf, verify_loop, merk_verify,
  merk_verify_single_node,
}
use keystone_workspace.Rt.Merkle.Tree.{
  Tree, tip, fork, depth, key_of, reach, find, digest, reach-find,
}

-- No two messages with the same hash
abbrev pub CollisionFree : {D : Type 0} → Sha256 D → Type 0
CollisionFree {D} h = (m n : Message D) → h.sha256 m ≡ h.sha256 n → m ≡ n

module _ {D : Type 0} where
  -- How a run of merk_verify may end: with a result, and true only for the hash of the leaf.
  abbrev pub Honest : D → D → Option Bool → Type 0
  Honest hash d o = (b : Bool) × (o ≡ some b) × (b ≡ true → hash ≡ d)

  says_no : (hash d : D) → Honest hash d (some false)
  says_no hash d = (false, refl, λ e. cc)

module _ {D : Type 0} (h : Sha256 D) where
  -- The leaves have hashes of pages.
  abbrev pub Pages : Tree D → Type 0
  Pages (tip a k d) = (bytes : List ℕ) × (counter : ℕ) × (d ≡ h.sha256 (page bytes counter))
  Pages (fork a k l r) = Pages l × Pages r

  -- A node with the key and the hash of the tree's top
  abbrev pub Signs : Node D → Tree D → Type 0
  Signs n t = (n.ptr ≡ key_of t) × (n.hash ≡ digest h t)

  verified_hash :
      (node : Node D) (l r : Option (Node D))
      → message l r ≢ empty
      → merk_verify_single_node h node l r ≡ true
      → h.sha256 (message l r) ≡ node.hash
  unfolding merk_verify_single_node
  verified_hash node none none n v = absurd (n refl)
  verified_hash node (some l) r n v = (h.same_iff _ _).0 v
  verified_hash node none (some r) n v = (h.same_iff _ _).0 v

  message-ne-empty :
      (p q : ℕ) (l r : Node D)
      → (p == 0 && q == 0) ≡ false
      → message (present p l) (present q r) ≢ empty
  message-ne-empty p q l r c = ground arith

  message-ne-page :
      (p q : ℕ) (l r : Node D) (bytes : List ℕ) (counter : ℕ)
      → message (present p l) (present q r) ≢ page bytes counter
  message-ne-page p q l r bytes counter = ground arith

  page-ne-two : {bytes : List ℕ} {counter i j : ℕ} {d e : D} → page bytes counter ≢ two i d j e
  page-ne-two m = cc

  message-eq-one : {i j : ℕ} {d e : D} → one i d ≡ one j e → (i ≡ j) × (d ≡ e)
  message-eq-one m = (cc, cc)

  message-eq-two :
      (p q : ℕ) (l r : Node D) (i j : ℕ) (d e : D)
      → message (present p l) (present q r) ≡ two i d j e
      → (p ≢ 0) × (q ≢ 0) × (l.ptr ≡ i) × (l.hash ≡ d) × (r.ptr ≡ j) × (r.hash ≡ e)
  message-eq-two p q l r i j d e m = ground arith

  module _ (free : CollisionFree h) where
    -- A node with children that is verified has not the hash of a page.
    verified_not_page :
        (node l r : Node D) (p q : ℕ) (bytes : List ℕ) (counter : ℕ)
        → (p == 0 && q == 0) ≡ false
        → merk_verify_single_node h node (present p l) (present q r) ≡ true
        → node.hash ≢ h.sha256 (page bytes counter)
    verified_not_page node l r p q bytes counter c v e =
        message-ne-page p q l r bytes counter
          (free _ _ (verified_hash node _ _ (message-ne-empty p q l r c) v ∙ e))

    -- Only the two nodes that a fork was hashed from fit it.
    verified_children :
        (node lc rc : Node D) (p q a k : ℕ) (l r : Tree D)
        → (p == 0 && q == 0) ≡ false
        → Signs node (fork a k l r)
        → merk_verify_single_node h node (present p lc) (present q rc) ≡ true
        → (p ≢ 0) × (q ≢ 0) × Signs lc l × Signs rc r
    verified_children node lc rc p q a k l r c s v =
        let (pz, qz, lp, lh, rp, rh) =
          message-eq-two p q lc rc (key_of l) (key_of r) (digest h l) (digest h r)
            (free _ _ (verified_hash node _ _ (message-ne-empty p q lc rc c) v ∙ s.1)) in
        (pz, qz, (lp, lh), (rp, rh))

    -- The ends of a round
    leaf_ends :
        (node : Node D) (t : Tree D) (key : ℕ) (bytes : List ℕ) (counter : ℕ)
        → Pages t
        → Signs node t
        → Honest
            (h.sha256 (page bytes counter))
            (reach key t)
            (some (h.same (h.sha256 (page bytes counter)) node.hash))
    leaf_ends node (tip a k d) key bytes counter g s = (_, refl, λ e. (h.same_iff _ _).0 e ∙ s.1)
    leaf_ends node (fork a k l r) key bytes counter g s =
        (_, refl, λ e. absurd (page-ne-two (free _ _ ((h.same_iff _ _).0 e ∙ s.1))))

    pub verify_loop-Honest :
        (fuel : ℕ) (reads : ℕ → ℕ → Node D) (i : ℕ) (t : Tree D) (node left right : Node D)
        (key : ℕ) (bytes : List ℕ) (counter : ℕ)
        → Pages t
        → Signs node t
        → depth t < fuel
        → Honest
            (h.sha256 (page bytes counter))
            (reach key t)
            (verify_loop h fuel reads i node left right key (h.sha256 (page bytes counter)))
    unfolding verify_loop
    verify_loop-Honest zero reads i t node left right key bytes counter g s lt =
        absurd (omega arith)
    verify_loop-Honest (suc fuel) reads i (tip a k d) node left right key bytes counter g s lt =
        let l = if node.left == 0 then left else reads (2 * i) node.left in
        let r = if node.right == 0 then right else reads (2 * i + 1) node.right in
        let ok = merk_verify_single_node h node (present node.left l) (present node.right r) in
        elim (Bool-cases (is_leaf node)) [
          | inl e ↦ rw e (leaf_ends node (tip a k d) key bytes counter g s)
          | inr e ↦ elim (Bool-cases ok) [
            | inl v ↦ absurd (verified_not_page node l r node.left node.right _ _ e v (s.1 ∙ g.2))
            | inr v ↦ rw (e, v) (says_no _ _)
          ]
        ]
    verify_loop-Honest (suc fuel) reads i (fork a k lt rt) node left right key bytes counter g s d =
        let l = if node.left == 0 then left else reads (2 * i) node.left in
        let r = if node.right == 0 then right else reads (2 * i + 1) node.right in
        let ok = merk_verify_single_node h node (present node.left l) (present node.right r) in
        elim (Bool-cases (is_leaf node)) [
          | inl e ↦ rw e (leaf_ends node (fork a k lt rt) key bytes counter g s)
          | inr e ↦ elim (Bool-cases ok) [
            | inl v ↦
                let (_, _, sl, sr) =
                  verified_children node l r node.left node.right a k lt rt e s v in
                let turn : ltb key node.ptr ≡ ltb key k = ap (ltb key) s.0 in
                elim (Bool-cases (ltb key k)) [
                  | inl c ↦
                      rw (e, v, turn, c)
                        (verify_loop-Honest fuel reads (i + 1) lt l l r key bytes counter g.0 sl
                          (omega arith))
                  | inr c ↦
                      rw (e, v, turn, c)
                        (verify_loop-Honest fuel reads (i + 1) rt r l r key bytes counter g.1 sr
                          (omega arith))
                ]
            | inr v ↦ rw (e, v) (says_no _ _)
          ]
        ]

    -- The root keeps the key and the hash of a tree's top. Then merk_verify ends in any memory, and
    -- accepts the hash of a page only if it is the one under the key.
    pub merk_verify_tampered :
        (fuel : ℕ) (reads : ℕ → ℕ → Node D) (stack root : Node D) (t : Tree D) (key : ℕ)
        (bytes : List ℕ) (counter : ℕ) (d : D)
        → Pages t
        → root.hash ≡ h.sha256 (one (key_of t) (digest h t))
        → depth t < fuel
        → find key t ≡ some d
        → Honest
            (h.sha256 (page bytes counter))
            d
            (merk_verify h fuel reads stack root key (h.sha256 (page bytes counter)))
    unfolding merk_verify
    merk_verify_tampered fuel reads stack root t key bytes counter d g c lt f =
        let right = reads 1 root.right in
        let hash = h.sha256 (page bytes counter) in
        elim (Bool-cases (root.right == 0)) [
          | inl e ↦ rw e (says_no hash d)
          | inr e ↦ elim (Bool-cases (merk_verify_single_node h root none (some right))) [
            | inl v ↦
                let s : Signs right t =
                  message-eq-one
                    (free _ _ (verified_hash root none (some right) (λ m. cc) v ∙ c)) in
                rw (e, v, ← (reach-find key t d f))
                  (verify_loop-Honest fuel reads 1 t right stack right key bytes counter g s lt)
            | inr v ↦ rw (e, v) (says_no hash d)
          ]
        ]
