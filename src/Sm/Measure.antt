-- ===== src/Sm/Measure.antt =====
-- The measurement of an enclave (sm/src/attest.c). The hash itself (sm/src/crypto.c and the code
-- below it) is a parameter.
use keystone_workspace.Base.{
  ℕ, zero, suc, ◌+◌, ◌-◌, ◌/◌, ◌%◌, ◌^◌, ltb, ◌==◌, if◌then◌else◌, List, [], ◌∷◌, ◌++◌,
}
use keystone_workspace.Pmp.State.{page_size}
use keystone_workspace.Sm.Codes.{success, illegal_pte}
use keystone_workspace.Sm.State.{RuntimeParams}

-- hash_init, hash_extend, hash_finalize, sign and kdf of sm/src/crypto.h, over lists of bytes. The
-- key pair of the monitor and the kdf's key stand in `sign` and `kdf`; `kdf` gives its code too.
pub record Crypto : Type 1 where
  pub Ctx : Type 0
  pub hash_init : Ctx
  pub hash_extend : Ctx → List ℕ → Ctx
  pub hash_finalize : Ctx → List ℕ
  pub sign : List ℕ → List ℕ
  pub kdf : List ℕ → ℕ × List ℕ

-- `n` bytes of the memory from address `a` on.
unfoldable pub read : (ℕ → ℕ) → ℕ → ℕ → List ℕ
read mem a zero = []
read mem a (suc n) = mem a ∷ read mem (a + 1) n

-- The `n` bytes of a number, the low ones first.
unfoldable pub le_bytes : ℕ → ℕ → List ℕ
le_bytes zero v = []
le_bytes (suc n) v = v % 256 ∷ le_bytes n (v / 256)

module _ (c : Crypto) where
  open c use {Ctx, hash_init, hash_extend, hash_finalize}

  unfoldable pub hash_extend_page : (ℕ → ℕ) → Ctx → ℕ → Ctx
  hash_extend_page mem ctx page = hash_extend ctx (read mem page page_size)

  -- `for (page = from; page < stop; page += RISCV_PGSIZE)`, on fuel.
  unfoldable pub hash_pages : ℕ → (ℕ → ℕ) → Ctx → ℕ → ℕ → Ctx
  hash_pages zero mem ctx page stop = ctx
  hash_pages (suc fuel) mem ctx page stop =
      let rest =
        hash_pages fuel mem (hash_extend_page mem ctx page) ((page + page_size) % 2 ^ 64) stop in
      if ltb page stop then rest else ctx

  -- One round for each page between the two addresses, and one for the last test.
  abbrev pub hash_range : (ℕ → ℕ) → Ctx → ℕ → ℕ → Ctx
  hash_range mem ctx from stop = hash_pages ((stop - from) / page_size + 2) mem ctx from stop

  unfoldable pub validate_and_hash_epm : (ℕ → ℕ) → Ctx → RuntimeParams → ℕ × Ctx
  unfolding hash_pages
  validate_and_hash_epm mem ctx p =
      let size = λ (b a : ℕ). (b + 2 ^ 64 - a) % 2 ^ 64 in
      let sizes =
        le_bytes 8 (size p.runtime_base p.dram_base)
        ++ le_bytes 8 (size p.user_base p.runtime_base)
        ++ le_bytes 8 (size p.free_base p.user_base) in
      let ctx1 = hash_extend ctx sizes in
      let ctx2 = hash_range mem ctx1 p.dram_base p.runtime_base in
      let ctx3 = hash_range mem ctx2 p.runtime_base p.user_base in
      (0, hash_range mem ctx3 p.user_base p.free_base)

  -- The code, and the hash where it was written. The code -1 is its 32-bit pattern.
  unfoldable pub validate_and_hash_enclave : (ℕ → ℕ) → RuntimeParams → ℕ × List ℕ
  validate_and_hash_enclave mem p =
      let (valid, ctx) = validate_and_hash_epm mem hash_init p in
      if valid == 2 ^ 32 - 1 then (illegal_pte, []) else (success, hash_finalize ctx)
