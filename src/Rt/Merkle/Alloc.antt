-- ===== src/Rt/Merkle/Alloc.antt =====
-- The nodes of the Merkle tree (runtime/crypto/merkle.c) and the backing pages from which they come
-- (paging_alloc_backing_page of runtime/mm/page_swap.c). A page has 64 slots of 64 bytes; slot 0
-- keeps the list entry of the page, which the model has apart from the nodes.
use keystone_workspace.Base.{
  ℕ, zero, suc, ◌+◌, ◌-◌, ◌*◌, ◌/◌, ◌%◌, ◌^◌, Bool, true, false, not, ltb, ◌==◌, if◌then◌else◌,
}
use keystone_workspace.Base.Words.{bit, band, bor, bnot, shl}
use keystone_workspace.Base.Outcome.{Outcome, ret, hang, ◌>>=◌, ◌>>◌, sm_assert}
use keystone_workspace.Rt.Words.{page_bits, riscv_page_size, is_aligned}

-- merkle_page_freelist_t
pub record FreeList : Type 0 where
  pub free : ℕ
  pub free_count : ℕ
  pub in_freelist : Bool
  pub next : ℕ

-- The backing region and its size, the next offset in it and the step to the one behind, the head of
-- the list of pages with free slots, and the list entry of each page
pub record Pool : Type 0 where
  pub region : ℕ
  pub region_size : ℕ
  pub inc_by : ℕ
  pub next_offset : ℕ
  pub merk_free_list : ℕ
  pub lists : ℕ → FreeList

abbrev pub merk_nodes_per_page : ℕ
merk_nodes_per_page = 64

abbrev pub node_size : ℕ
node_size = 64

-- `__builtin_ctzll`, of a word that is not 0: the index of its lowest bit, searched from `i` on
unfoldable pub ctz : ℕ → ℕ → ℕ → ℕ
unfolding bit
ctz zero i a = i
ctz (suc rounds) i a = let rest = ctz rounds (i + 1) a in if bit a i then i else rest

abbrev pub set_list : Pool → ℕ → FreeList → Pool
set_list s page l = record s { lists = λ a. if a == page then l else s.lists a }

unfoldable pub paging_alloc_backing_page : Pool → Outcome (ℕ × Pool)
paging_alloc_backing_page s =
    let offs_update = ((s.next_offset + s.inc_by) % 2 ^ 64) % s.region_size in
    let next_page = (s.region + s.next_offset) % 2 ^ 64 in
    if offs_update == 0
    then ret (0, s)
    else sm_assert (is_aligned next_page page_bits)
      >> ret (next_page, record s { next_offset = offs_update })

-- Slot 0 of a new page is taken. A write to NULL faults.
unfoldable pub merk_alloc_page : Pool → Outcome (ℕ × Pool)
unfolding paging_alloc_backing_page
merk_alloc_page s = paging_alloc_backing_page s >>= λ (page, t).
    sm_assert (not (page == 0))
    >> ret (
      page,
      set_list t page (record {
        free = 2 ^ 64 - 2;
        free_count = merk_nodes_per_page - 1;
        in_freelist = false;
        next = 0;
      }),
    )

unfoldable pub merk_reserve_node_in_page : Pool → ℕ → Outcome (ℕ × Pool)
unfolding ctz band bnot shl
merk_reserve_node_in_page s page =
    let l = s.lists page in
    let idx = ctz 64 0 l.free in
    if l.free_count == 0
    then ret (0, s)
    else if l.free == 0
    then ret (0, s)
    else sm_assert (not (idx == 0))
      >> ret (
        page + node_size * idx,
        set_list s page (record l {
          free = band 64 l.free (bnot 64 (shl 64 1 idx));
          free_count = (l.free_count + 2 ^ 16 - 1) % 2 ^ 16;
        }),
      )

-- The pages at the head of the list that have no free slot leave it. Out of fuel is `hang`.
unfoldable pub drop_full : ℕ → Pool → Outcome (Pool)
drop_full zero s = hang
drop_full (suc fuel) s =
    let l = s.lists s.merk_free_list in
    let t = set_list s s.merk_free_list (record l { in_freelist = false }) in
    let rest = drop_full fuel (record t { merk_free_list = l.next }) in
    if s.merk_free_list == 0 then ret s else if l.free_count == 0 then rest else ret s

-- With no page left in the list, a new one starts it.
unfoldable pub with_page : Pool → Outcome (Pool)
unfolding merk_alloc_page
with_page s =
    if s.merk_free_list == 0
    then merk_alloc_page s >>= (λ (page, t).
      ret (record (set_list t page (record (t.lists page) { in_freelist = true })) {
        merk_free_list = page;
      }))
    else ret s

-- The list has at most all the pages of the region.
unfoldable pub merk_alloc_node : Pool → Outcome (ℕ × Pool)
unfolding drop_full with_page merk_reserve_node_in_page
merk_alloc_node s = do
  a ← drop_full (s.region_size / riscv_page_size + 1) s
  b ← with_page a
  merk_reserve_node_in_page b b.merk_free_list

-- The page goes to the head of the list unless it is in the list.
abbrev pub enlist : Pool → ℕ → Pool
enlist s page =
    if (s.lists page).in_freelist
    then s
    else record (set_list s page
        (record (s.lists page) { next = s.merk_free_list; in_freelist = true })) {
          merk_free_list = page;
        }

unfoldable pub merk_free_node : Pool → ℕ → Outcome (Pool)
unfolding bor shl bit
merk_free_node s node =
    let page = node - node % riscv_page_size in
    let idx = node % riscv_page_size / node_size in
    let l = s.lists page in
    sm_assert (ltb idx merk_nodes_per_page)
    >> (sm_assert (not (bit l.free idx))
        >> ret (
            enlist
              (set_list s page (record l {
                free = bor 64 l.free (shl 64 1 idx);
                free_count = (l.free_count + 1) % 2 ^ 16;
              }))
              page))
