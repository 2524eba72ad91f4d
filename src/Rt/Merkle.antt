-- ===== src/Rt/Merkle.antt =====
-- The Merkle tree over the pages that are swapped out (runtime/crypto/merkle.c and merkle.h, with
-- USE_PAGING and USE_PAGE_HASH). Its nodes are in the backing storage, outside the enclave, and only
-- the root is in the enclave. A node is read and written at its address; the hashes are of a type
-- that the hash function brings with it.
pub mod Alloc
pub mod Insert
pub mod Tree
pub mod Verify
pub mod Tamper
pub mod Climb
pub mod Path
pub mod Grow
pub mod Grown
pub mod Root
pub mod Added
pub mod Deep
pub mod Region
use keystone_workspace.Base.{
  ℕ, zero, suc, ◌+◌, ◌*◌, ◌≡◌, ◌↔◌, Bool, true, false, not, ◌&&◌, ltb, ◌==◌, if◌then◌else◌, Option,
  none, some, List,
}

-- What merkle.c and page_swap.c pass to sha256_update, in order, before sha256_final: keys (8 bytes)
-- with the hashes behind them (32 bytes), or a page (4096 bytes) with its counter (8 bytes).
pub data Message (D : Type 0) : Type 0 where
  empty : Message D
  one : ℕ → D → Message D
  two : ℕ → D → ℕ → D → Message D
  page : List ℕ → ℕ → Message D

-- The hash function, and `memcmp(a, b, 32) == 0`.
pub record Sha256 (D : Type 0) : Type 0 where
  pub sha256 : Message D → D
  pub same : D → D → Bool
  pub same_iff : (a b : D) → (same a b ≡ true) ↔ (a ≡ b)

-- merkle_node_t; a pointer that is 0 is NULL.
pub record Node (D : Type 0) : Type 0 where
  pub ptr : ℕ
  pub hash : D
  pub left : ℕ
  pub right : ℕ

module _ {D : Type 0} where
  abbrev pub is_leaf : Node D → Bool
  is_leaf n = n.left == 0 && n.right == 0

  -- What the two children contribute, each only if it is there.
  abbrev pub message : Option (Node D) → Option (Node D) → Message D
  message none none = empty
  message (some l) none = one l.ptr l.hash
  message none (some r) = one r.ptr r.hash
  message (some l) (some r) = two l.ptr l.hash r.ptr r.hash

  -- `p ? &n : NULL`
  abbrev pub present : ℕ → Node D → Option (Node D)
  present p n = if p == 0 then none else some n

module _ {D : Type 0} (h : Sha256 D) where
  unfoldable pub merk_verify_single_node : Node D → Option (Node D) → Option (Node D) → Bool
  merk_verify_single_node node none none = true
  merk_verify_single_node node (some l) r = h.same (h.sha256 (message (some l) r)) node.hash
  merk_verify_single_node node none (some r) = h.same (h.sha256 (message none (some r))) node.hash

  unfoldable pub merk_hash_single_node : Node D → Option (Node D) → Option (Node D) → Node D
  merk_hash_single_node node l r = record node { hash = h.sha256 (message l r) }

  -- The walk of merk_verify. `reads` is the memory at each read, since others may write to it in
  -- between: layer `i` reads the left child at `2 * i` and the right one behind it. `left` and
  -- `right` are the copies of the layer before. `none` is out of fuel.
  unfoldable pub verify_loop :
      ℕ → (ℕ → ℕ → Node D) → ℕ → Node D → Node D → Node D → ℕ → D → Option Bool
  unfolding merk_verify_single_node
  verify_loop zero reads i node left right key hash = none
  verify_loop (suc fuel) reads i node left right key hash =
      let l = if node.left == 0 then left else reads (2 * i) node.left in
      let r = if node.right == 0 then right else reads (2 * i + 1) node.right in
      let rest = verify_loop fuel reads (i + 1) (if ltb key node.ptr then l else r) l r key hash in
      if is_leaf node
      then some (h.same hash node.hash)
      else if merk_verify_single_node node (present node.left l) (present node.right r)
      then rest
      else some false

  -- merk_verify. The root is read in the enclave, its child at the first read outside; `stack` is
  -- what the local variable `left` holds before it is set.
  unfoldable pub merk_verify : ℕ → (ℕ → ℕ → Node D) → Node D → Node D → ℕ → D → Option Bool
  unfolding verify_loop merk_verify_single_node
  merk_verify fuel reads stack root key hash =
      let right = reads 1 root.right in
      if root.right == 0
      then some false
      else if merk_verify_single_node root none (some right)
      then verify_loop fuel reads 1 right stack right key hash
      else some false
