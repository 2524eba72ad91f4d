-- ===== src/Rt/Merkle/Region.antt =====
-- The backing region stays where it is: what merk_insert changes in the pool of nodes
-- (runtime/crypto/merkle.c, paging_alloc_backing_page of runtime/mm/page_swap.c).
use keystone_workspace.Base.{
  ℕ, zero, suc, ◌+◌, ◌-◌, ◌/◌, ◌%◌, ◌^◌, ltb, not, ◌&&◌, ◌==◌, ◌≡◌, Bool, true, false,
  if◌then◌else◌, List, [], ◌∷◌, arith, refl, ◌∙◌, subst,
}
use keystone_workspace.Base.Outcome.{Outcome, ret, hang, ◌>>=◌, ◌>>◌, sm_assert}
use keystone_workspace.Rt.Merkle.{Node, Sha256, is_leaf}
use keystone_workspace.Rt.Merkle.Alloc.{
  Pool, paging_alloc_backing_page, merk_alloc_page, merk_reserve_node_in_page, drop_full, with_page,
  merk_alloc_node, merk_free_node, enlist, set_list, ctz, merk_nodes_per_page, node_size,
}
use keystone_workspace.Base.Words.{bit, bor, shl}
use keystone_workspace.Rt.Words.{page_bits, riscv_page_size, is_aligned}
use keystone_workspace.Rt.Merkle.Insert.{
  Inserted, Merk, merk_splice_node, put_at_leaf, percolate, merk_insert, write, descend,
  merk_max_depth, child, has_sibling, verify_placed,
}

abbrev pub SamePlace : Pool → Pool → Type 0
SamePlace a b = (b.region ≡ a.region) × (b.region_size ≡ a.region_size)

-- If the code returns, the pool that it returns is in the same place.
pub data Stays {A : Type 0} (a : Pool) (f : A → Pool) : Outcome A → Type 0 where
  stays : {x : A} → SamePlace a (f x) → Stays a f (ret x)
  hangs : Stays a f hang

same :
    {A : Type 0} {a : Pool} {f : A → Pool} {x : A}
    → (f x).region ≡ a.region
    → (f x).region_size ≡ a.region_size
    → Stays a f (ret x)
same e n = stays (e, n)

returned : {A : Type 0} {a : Pool} {f : A → Pool} {x : A} → Stays a f (ret x) → SamePlace a (f x)
returned (stays s) = s

Stays-trans :
    {A : Type 0} {a b : Pool} {f : A → Pool} {m : Outcome A}
    → SamePlace a b
    → Stays b f m
    → Stays a f m
Stays-trans e (stays s) = stays (s.0 ∙ e.0, s.1 ∙ e.1)
Stays-trans e hangs = hangs

Stays-bind :
    {A B : Type 0} {a : Pool} {f : A → Pool} {g : B → Pool} {m : Outcome A} {k : A → Outcome B}
    → Stays a f m
    → ((x : A) → Stays (f x) g (k x))
    → Stays a g (m >>= k)
Stays-bind (stays {x = x} s) t = Stays-trans s (t x)
Stays-bind hangs t = hangs

Stays-if :
    {A : Type 0} {a : Pool} {f : A → Pool} (c : Bool) {m n : Outcome A}
    → Stays a f m
    → Stays a f n
    → Stays a f (if c then m else n)
Stays-if true s t = s
Stays-if false s t = t

Stays-assert :
    {A : Type 0} {a : Pool} {f : A → Pool} (c : Bool) {m : Outcome A}
    → Stays a f m
    → Stays a f (sm_assert c >> m)
Stays-assert true s = s
Stays-assert false s = hangs

abbrev pool_of : ℕ × Pool → Pool
pool_of r = r.1

backing-Stays : (s : Pool) → Stays s pool_of (paging_alloc_backing_page s)
unfolding paging_alloc_backing_page
backing-Stays s =
    let at = (s.region + s.next_offset) % 2 ^ 64 in
    Stays-if (((s.next_offset + s.inc_by) % 2 ^ 64) % s.region_size == 0) (same refl refl)
      (Stays-assert (is_aligned at page_bits) (same refl refl))

page-Stays : (s : Pool) → Stays s pool_of (merk_alloc_page s)
unfolding merk_alloc_page
page-Stays s =
    Stays-bind (backing-Stays s) (λ (page, t). Stays-assert (not (page == 0)) (same refl refl))

reserve-Stays : (s : Pool) (page : ℕ) → Stays s pool_of (merk_reserve_node_in_page s page)
unfolding merk_reserve_node_in_page
reserve-Stays s page =
    let l = s.lists page in
    Stays-if (l.free_count == 0) (same refl refl) (
      Stays-if (l.free == 0) (same refl refl)
        (Stays-assert (not (ctz 64 0 l.free == 0)) (same refl refl)))

drop-Stays : (n : ℕ) (s : Pool) → Stays s (λ r. r) (drop_full n s)
unfolding drop_full
drop-Stays zero s = hangs
drop-Stays (suc n) s =
    let l = s.lists s.merk_free_list in
    let t = set_list s s.merk_free_list (record l { in_freelist = false }) in
    Stays-if (s.merk_free_list == 0) (same refl refl) (
      Stays-if (l.free_count == 0)
        (Stays-trans {a = s} (refl, refl) (drop-Stays n (record t { merk_free_list = l.next })))
        (same refl refl))

with_page-Stays : (s : Pool) → Stays s (λ r. r) (with_page s)
unfolding with_page
with_page-Stays s =
    Stays-if (s.merk_free_list == 0) (Stays-bind (page-Stays s) (λ r. same refl refl))
      (same refl refl)

alloc-Stays : (s : Pool) → Stays s pool_of (merk_alloc_node s)
unfolding merk_alloc_node
alloc-Stays s =
    Stays-bind (drop-Stays (s.region_size / riscv_page_size + 1) s)
      (λ a. Stays-bind (with_page-Stays a) (λ b. reserve-Stays b b.merk_free_list))

enlist-same : (s : Pool) (page : ℕ) → SamePlace s (enlist s page)
enlist-same s page = ground arith

free-Stays : (s : Pool) (node : ℕ) → Stays s (λ r. r) (merk_free_node s node)
unfolding merk_free_node
free-Stays s node =
    let page = node - node % riscv_page_size in
    let idx = node % riscv_page_size / node_size in
    let l = s.lists page in
    let t = set_list s page (record l {
      free = bor 64 l.free (shl 64 1 idx);
      free_count = (l.free_count + 1) % 2 ^ 16;
    }) in
    Stays-assert (ltb idx merk_nodes_per_page) (
      Stays-assert (not (bit l.free idx))
        (Stays-trans {a = s} {b = t} (refl, refl) (stays {x = enlist t page} (enlist-same t page))))

module _ {D : Type 0} (h : Sha256 D) where
  splice-Stays : (s : Merk D) (a b : ℕ) → Stays s.pool (λ r. r.1.pool) (merk_splice_node h s a b)
  unfolding merk_splice_node
  splice-Stays s a b =
      Stays-if ((s.nodes b).ptr == (s.nodes a).ptr)
        (Stays-bind (free-Stays s.pool a) (λ r. same refl refl))
        (Stays-bind (alloc-Stays s.pool)
          (λ (p, pool). Stays-assert (not (p == 0)) (same refl refl)))

  put-Stays :
      (n : ℕ) (curr : Node D) (a : ℕ) (parent : Node D) (b : Bool) (s : Merk D)
      → Stays s.pool (λ r. r.3.pool) (put_at_leaf h n curr a parent b s)
  put-Stays n curr a parent b s =
      Stays-if (is_leaf curr) (Stays-bind (splice-Stays s a n) (λ r. same refl refl))
        (same refl refl)

  percolate-Stays :
      (path : List ℕ) (n : ℕ) (s : Merk D) (curr : Node D) (a : ℕ)
      → Stays s.pool (λ r. r.1.pool) (percolate h n s curr a path)
  unfolding percolate
  percolate-Stays [] n s curr a = same refl refl
  percolate-Stays (parent_ptr ∷ path) n s curr a =
      let parent = s.nodes parent_ptr in
      let b = parent.right == a in
      let other = s.nodes (child parent (not b)) in
      Stays-if (has_sibling parent && not (verify_placed h parent b (s.nodes a) other))
        (same refl refl)
        (Stays-bind (put-Stays n curr a parent b s)
          (λ (p, c, q, t). Stays-assert (p == child q b) (percolate-Stays path n _ _ parent_ptr)))

  pub merk_insert-Stays :
      (s : Merk D) (root key : ℕ) (e : D)
      → Stays s.pool (λ r. r.1.pool) (merk_insert h s root key e)
  unfolding merk_insert
  merk_insert-Stays s root key e = Stays-bind (alloc-Stays s.pool) (λ (p, pool).
      Stays-assert (not (p == 0)) (
        let n : Node D = record { ptr = key; hash = e; left = 0; right = 0 } in
        let u : Merk D = record { nodes = write s.nodes p n; pool = pool } in
        let (last, path) = descend (merk_max_depth - 1) u.nodes key root [] in
        Stays-if ((u.nodes root).right == 0) (same refl refl)
          (percolate-Stays path p u (u.nodes last) last)))

  pub merk_insert_place :
      (s t : Merk D) (root key : ℕ) (e : D) (r : Inserted)
      → merk_insert h s root key e ≡ ret (r, t)
      → SamePlace s.pool t.pool
  merk_insert_place s t root key e r i =
      returned (subst (Stays s.pool (λ x. x.1.pool)) i (merk_insert-Stays s root key e))
