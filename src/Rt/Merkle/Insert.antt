-- ===== src/Rt/Merkle/Insert.antt =====
-- merk_insert and what it calls (runtime/crypto/merkle.c).
use keystone_workspace.Base.{
  ℕ, zero, suc, ◌-◌, ◌==◌, Bool, true, false, not, ◌&&◌, ltb, if◌then◌else◌, Option, none, some,
  List, [], ◌∷◌,
}
use keystone_workspace.Base.Outcome.{Outcome, ret, ◌>>=◌, ◌>>◌, sm_assert}
use keystone_workspace.Rt.Merkle.{
  Node, Sha256, is_leaf, merk_verify_single_node, merk_hash_single_node,
}
use keystone_workspace.Rt.Merkle.Alloc.{Pool, merk_alloc_node, merk_free_node}

-- The nodes in the backing storage, the root among them, and the slots for new ones
pub record Merk (D : Type 0) : Type 0 where
  pub nodes : ℕ → Node D
  pub pool : Pool

-- The two results of merk_insert
pub data Inserted : Type 0 where
  done : Inserted
  refused : Inserted

abbrev pub merk_max_depth : ℕ
merk_max_depth = 32

module _ {D : Type 0} where
  abbrev pub write : (ℕ → Node D) → ℕ → Node D → ℕ → Node D
  write nodes p n a = if a == p then n else nodes a

  abbrev pub set_node : Merk D → ℕ → Node D → Merk D
  set_node s p n = record s { nodes = write s.nodes p n }

  -- `node.children[b]`
  abbrev pub child : Node D → Bool → ℕ
  child n true = n.right
  child n false = n.left

  abbrev pub set_child : Node D → Bool → ℕ → Node D
  set_child n true p = record n { right = p }
  set_child n false p = record n { left = p }

  -- The walk down: the addresses of intermediate_nodes, the last one first.
  unfoldable pub descend : ℕ → (ℕ → Node D) → ℕ → ℕ → List ℕ → ℕ × List ℕ
  descend zero nodes key parent path = (parent, path)
  descend (suc rounds) nodes key parent path =
      let next = child (nodes parent) (not (ltb key (nodes parent).ptr)) in
      let rest = descend rounds nodes key next (parent ∷ path) in
      if next == 0 then (parent, path) else rest

  abbrev pub has_sibling : Node D → Bool
  has_sibling n = not (n.left == 0) && not (n.right == 0)

-- `copied_children`: `node` at index `b`, `other` at the other one
module _ {D : Type 0} (h : Sha256 D) where
  abbrev pub verify_placed : Node D → Bool → Node D → Node D → Bool
  verify_placed parent true node other = merk_verify_single_node h parent (some other) (some node)
  verify_placed parent false node other = merk_verify_single_node h parent (some node) (some other)

  abbrev pub hash_placed : Node D → Bool → Node D → Option (Node D) → Node D
  hash_placed parent true node other = merk_hash_single_node h parent other (some node)
  hash_placed parent false node other = merk_hash_single_node h parent (some node) other

  -- The new parent of a leaf and of the new node
  abbrev pub joined : ℕ → Node D → ℕ → Node D → Node D
  joined p a q b =
      merk_hash_single_node h (record { ptr = b.ptr; hash = b.hash; left = p; right = q }) (some a)
        (some b)

  unfoldable pub merk_splice_node : Merk D → ℕ → ℕ → Outcome (ℕ × Merk D)
  unfolding merk_free_node merk_alloc_node merk_hash_single_node
  merk_splice_node s leaf node =
      let n = s.nodes node in
      let l = s.nodes leaf in
      if n.ptr == l.ptr
      then merk_free_node s.pool leaf >>= (λ pool. ret (node, record s { pool = pool }))
      else merk_alloc_node s.pool >>= λ (new_parent, pool).
          sm_assert (not (new_parent == 0))
          >> ret (
            new_parent,
            set_node (record s { pool = pool }) new_parent
                (if ltb n.ptr l.ptr then joined node n leaf l else joined leaf l node n),
          )

  -- At the leaf the new node is put in: the node, what it holds, the parent and the state then
  abbrev pub put_at_leaf :
      ℕ → Node D → ℕ → Node D → Bool → Merk D → Outcome (ℕ × Node D × Node D × Merk D)
  put_at_leaf new_node curr node_ptr parent b s =
      if is_leaf curr
      then merk_splice_node s node_ptr new_node
        >>= (λ (p, t). ret (p, t.nodes p, set_child parent b p, t))
      else ret (node_ptr, curr, parent, s)

  -- The walk back up
  unfoldable pub percolate : ℕ → Merk D → Node D → ℕ → List ℕ → Outcome (Inserted × Merk D)
  unfolding merk_splice_node merk_verify_single_node merk_hash_single_node
  percolate new_node s curr root [] = ret (done, set_node s root curr)
  percolate new_node s curr node_ptr (parent_ptr ∷ path) =
      let parent = s.nodes parent_ptr in
      let b = parent.right == node_ptr in
      let sibling = s.nodes (child parent (not b)) in
      if has_sibling parent && not (verify_placed parent b (s.nodes node_ptr) sibling)
      then ret (refused, s)
      else put_at_leaf new_node curr node_ptr parent b s >>= λ (p, c, q, t).
          sm_assert (p == child q b)
          >> percolate new_node (set_node t p c)
              (hash_placed q b c (if has_sibling parent then some sibling else none)) parent_ptr
              path

  -- The first node of a tree
  abbrev pub insert_first : Merk D → ℕ → ℕ → Merk D
  insert_first s root new_node =
      set_node s root
        (record (merk_hash_single_node h (s.nodes root) none (some (s.nodes new_node))) {
          right = new_node;
        })

  -- The depth test never fails: the loop ends at MERK_MAX_DEPTH - 1 at the latest.
  unfoldable pub merk_insert : Merk D → ℕ → ℕ → D → Outcome (Inserted × Merk D)
  unfolding percolate descend merk_alloc_node merk_hash_single_node
  merk_insert s root key hash = merk_alloc_node s.pool >>= λ (new_node, pool).
      sm_assert (not (new_node == 0))
      >> (let n : Node D = record { ptr = key; hash = hash; left = 0; right = 0 } in
          let u = set_node (record s { pool = pool }) new_node n in
          let (last, path) = descend (merk_max_depth - 1) u.nodes key root [] in
          if (u.nodes root).right == 0
          then ret (done, insert_first u root new_node)
          else percolate new_node u (u.nodes last) last path)
