-- ===== src/Rt/Swap.antt =====
-- The swap of a page between the enclave's memory and the backing storage (runtime/mm/page_swap.c,
-- with USE_PAGE_CRYPTO and USE_PAGE_HASH, and the bounds of runtime/mm/paging.c). Whole pages, the
-- counters and the nodes of the Merkle tree are apart in the model.
pub mod Round
use keystone_workspace.Base.{
  ℕ, ◌+◌, ◌-◌, ◌*◌, ◌/◌, ◌%◌, ◌^◌, ◌≡◌, Bool, true, false, not, ◌&&◌, ltb, leb, ◌==◌, if◌then◌else◌,
  Option, none, some, List, update, ◌||◌,
}
use keystone_workspace.Base.Outcome.{Outcome, ret, hang, ◌>>=◌, ◌>>◌, sm_assert}
use keystone_workspace.Rt.Words.{page_bits, riscv_page_size, load_start}
use keystone_workspace.Rt.Merkle.{Sha256, Node, page, merk_verify}
use keystone_workspace.Rt.Merkle.Alloc.{Pool, paging_alloc_backing_page}
use keystone_workspace.Rt.Merkle.Insert.{Merk, merk_insert}

-- aes_encrypt_ctr and aes_decrypt_ctr on a page, with the 256-bit key and the counter in the second
-- word of the initial vector
pub record Aes : Type 0 where
  pub encrypt : List ℕ → ℕ → List ℕ → List ℕ
  pub decrypt : List ℕ → ℕ → List ℕ → List ℕ

-- paging_merk_root is at `root`; `epm_end` is `freemem_va_start + freemem_size`; `boot_key` is
-- pswap_boot_key once it is set.
pub record Swap (D : Type 0) : Type 0 where
  pub merk : Merk D
  pub root : ℕ
  pub pages : ℕ → List ℕ
  pub ctr_indirect_ptrs : ℕ → ℕ
  pub counters : ℕ → ℕ
  pub boot_key : Option (List ℕ)
  pub epm_end : ℕ

abbrev pub num_ctr_indirects : ℕ
num_ctr_indirects = 24

-- The counters in a page: RISCV_PAGE_SIZE / 8
abbrev pub ctrs_per_page : ℕ
ctrs_per_page = 512

-- The counters of a new page start at random values, `random` at each address.
abbrev pub new_counters : (ℕ → ℕ) → (ℕ → ℕ) → ℕ → ℕ → ℕ
new_counters counters random base a =
    if leb base a && ltb a (base + riscv_page_size) then random a else counters a

module _ {D : Type 0} where
  abbrev pub paging_epm_inbounds : Swap D → ℕ → Bool
  paging_epm_inbounds s epm_page = leb load_start epm_page && ltb epm_page s.epm_end

  abbrev pub paging_backpage_inbounds : Swap D → ℕ → Bool
  paging_backpage_inbounds s back_page =
      leb s.merk.pool.region back_page
      && ltb back_page ((s.merk.pool.region + s.merk.pool.region_size) % 2 ^ 64)

  abbrev pub ctr_index : Swap D → ℕ → ℕ
  ctr_index s back_page = (back_page - s.merk.pool.region) / riscv_page_size

  -- The page with the counters of so many pages, from the backing storage if there is none yet. A
  -- write to NULL faults.
  unfoldable pub ctr_page : (ℕ → ℕ) → Swap D → ℕ → Outcome (Swap D)
  unfolding paging_alloc_backing_page
  ctr_page random s i =
      if s.ctr_indirect_ptrs i == 0
      then paging_alloc_backing_page s.merk.pool >>= (λ (base, pool).
        sm_assert (not (base == 0))
        >> ret (record s {
          merk = record { nodes = s.merk.nodes; pool = pool };
          ctr_indirect_ptrs = update s.ctr_indirect_ptrs i base;
          counters = new_counters s.counters random base;
        }))
      else ret s

  -- The address of the counter of a page
  abbrev pub ctr_address : Swap D → ℕ → ℕ
  ctr_address s i = s.ctr_indirect_ptrs (i / ctrs_per_page) + 8 * (i % ctrs_per_page)

  unfoldable pub pswap_pageout_ctr : (ℕ → ℕ) → Swap D → ℕ → Outcome (ℕ × Swap D)
  unfolding ctr_page
  pswap_pageout_ctr random s back_page =
      let i = ctr_index s back_page in
      sm_assert (paging_backpage_inbounds s back_page)
      >> (sm_assert (ltb (i / ctrs_per_page) num_ctr_indirects)
          >> (ctr_page random s (i / ctrs_per_page) >>= λ t. ret (ctr_address t i, t)))

  -- The key is set once, to random bytes.
  abbrev pub pswap_establish_boot_key : List ℕ → Swap D → List ℕ × Swap D
  pswap_establish_boot_key fresh s = elim s.boot_key [
    | some key ↦ (key, s)
    | none ↦ (fresh, record s { boot_key = some fresh })
  ]

  abbrev pub pswap_encrypt : Aes → List ℕ → Swap D → List ℕ → ℕ → ℕ → Swap D
  pswap_encrypt aes fresh s bytes dst ctr =
      let (key, t) = pswap_establish_boot_key fresh s in
      record t { pages = update t.pages dst (aes.encrypt key ctr bytes) }

  abbrev pub pswap_decrypt : Aes → List ℕ → Swap D → List ℕ → ℕ → ℕ → Swap D
  pswap_decrypt aes fresh s bytes dst ctr =
      let (key, t) = pswap_establish_boot_key fresh s in
      record t { pages = update t.pages dst (aes.decrypt key ctr bytes) }

-- The hash function, the cipher, the random bytes of a new key and of new counters, what the local
-- variable of merk_verify holds at first, and the rounds of its walk
module _ {D : Type 0} (h : Sha256 D) (aes : Aes) (fresh : List ℕ) (random : ℕ → ℕ) (stack : Node D)
    (fuel : ℕ) where
  abbrev pub pswap_hash : List ℕ → ℕ → D
  pswap_hash bytes ctr = h.sha256 (page bytes ctr)

  -- The walk that does not end is `hang`.
  abbrev pub verified : Option Bool → Outcome (Unit {0})
  verified none = hang
  verified (some ok) = sm_assert ok

  -- The old page comes in, and its hash is verified.
  unfoldable pub swap_in : Swap D → ℕ → ℕ → List ℕ → ℕ → Outcome (Swap D)
  unfolding merk_verify
  swap_in s back_page epm_page buffer old_ctr =
      let t = pswap_decrypt aes fresh s buffer epm_page old_ctr in
      verified (
        merk_verify h fuel (λ _. t.merk.nodes) stack (t.merk.nodes t.root) back_page
          (pswap_hash (t.pages epm_page) old_ctr))
      >> ret t

  -- The new hash goes into the tree, whatever merk_insert answers, and the counter goes up.
  unfoldable pub finish_swap : Swap D → ℕ → ℕ → D → ℕ → Outcome (Swap D)
  unfolding merk_insert
  finish_swap s back_page ctr_at new_hash new_ctr =
      merk_insert h s.merk s.root back_page new_hash >>= λ (_, merk).
      ret (record s { merk = merk; counters = update s.counters ctr_at new_ctr })

  unfoldable pub page_swap_epm : Swap D → ℕ → ℕ → ℕ → Outcome (Swap D)
  unfolding pswap_pageout_ctr swap_in finish_swap
  page_swap_epm s back_page epm_page swap_page = do
    sm_assert (paging_epm_inbounds s epm_page)
    sm_assert (paging_backpage_inbounds s back_page)
    sm_assert (swap_page == 0 || swap_page == back_page)
    (ctr_at, t) ← pswap_pageout_ctr random s back_page
    let old_ctr = t.counters ctr_at
    let new_ctr = (old_ctr + 1) % 2 ^ 64
    let new_hash = pswap_hash (t.pages epm_page) new_ctr
    let buffer = t.pages swap_page
    let out = pswap_encrypt aes fresh t (t.pages epm_page) back_page new_ctr
    u ← if swap_page == 0 then ret out else swap_in out back_page epm_page buffer old_ctr
    finish_swap u back_page ctr_at new_hash new_ctr
