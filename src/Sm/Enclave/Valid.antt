-- ===== src/Sm/Enclave/Valid.antt =====
-- What `is_create_args_valid` accepts, and which id `encl_alloc_eid` gives.
use native.Mathlib.Decide.{ℕ_discrete}
use keystone_workspace.Base.{
  ℕ, zero, suc, ◌+◌, ◌^◌, ◌≤◌, ◌<◌, ◌≡◌, ◌↔◌, ◌⊎◌, inl, inr, refl, true, false, ◌==◌, arith, Option,
  some, none, Bool-cases,
}
use keystone_workspace.Sm.State.{
  CreateArgs, Enclave, Machine, EnclaveState, invalid, allocated, encl_max,
}
use keystone_workspace.Sm.Enclave.{
  is_create_args_valid, alloc_loop, encl_alloc_eid, is_invalid, with_state,
}

-- Each number is a 64-bit word.
pub record Words (a : CreateArgs) : Type 0 where
  pub epm_addr : a.epm_region.paddr < 2 ^ 64
  pub epm_size : a.epm_region.size < 2 ^ 64
  pub utm_addr : a.utm_region.paddr < 2 ^ 64
  pub utm_size : a.utm_region.size < 2 ^ 64

-- The layout of a valid call: both regions are not empty and end below 2^64, and runtime,
-- application and free memory lie in this order in the private region.
pub record Layout (a : CreateArgs) : Type 0 where
  pub epm_nonempty : 0 < a.epm_region.size
  pub utm_nonempty : 0 < a.utm_region.size
  pub epm_end : a.epm_region.paddr + a.epm_region.size < 2 ^ 64
  pub utm_end : a.utm_region.paddr + a.utm_region.size < 2 ^ 64
  pub runtime_in : a.epm_region.paddr ≤ a.runtime_paddr
  pub user_after : a.runtime_paddr ≤ a.user_paddr
  pub user_in : a.user_paddr < a.epm_region.paddr + a.epm_region.size
  pub free_after : a.user_paddr ≤ a.free_paddr
  pub free_in : a.free_paddr ≤ a.epm_region.paddr + a.epm_region.size

-- `is_create_args_valid` accepts exactly the arguments with this layout, for words of 64 bits.
pub is_create_args_valid_iff :
    (a : CreateArgs) → Words a → (is_create_args_valid a ≡ true) ↔ Layout a
unfolding is_create_args_valid
is_create_args_valid_iff a w = (λ h. ground arith, λ l. ground arith)

of_is_invalid : (s : EnclaveState) → is_invalid s ≡ true → s ≡ invalid
of_is_invalid s e = ground arith

-- The loop of `encl_alloc_eid` ends at the first invalid enclave, or behind the last one.
alloc_loop_lem :
    (rounds eid : ℕ) (enclaves : ℕ → Enclave)
    → let r = alloc_loop rounds eid enclaves in
      ((r < eid + rounds) × ((enclaves r).state ≡ invalid))
      ⊎ ((r ≡ eid + rounds)
          × ((j : ℕ) → eid ≤ j → j < eid + rounds → is_invalid (enclaves j).state ≡ false))
unfolding alloc_loop
alloc_loop_lem zero eid enclaves = inr (omega arith, λ j l u. absurd (omega arith))
alloc_loop_lem (suc rounds) eid enclaves = elim (Bool-cases (is_invalid (enclaves eid).state)) [
  | inl e ↦ rw e (inl (omega arith, of_is_invalid (enclaves eid).state e))
  | inr e ↦ rw e (elim (alloc_loop_lem rounds (eid + 1) enclaves) [
    | inl (l, s) ↦ inl (omega arith, s)
    | inr (l, all) ↦ inr (
      omega arith,
      λ j lo hi. elim (ℕ_discrete eid j) [
        | yes q ↦ rw q at e
        | no q ↦ all j (ground arith) (omega arith)
      ],
    )
  ])
]

abbrev pub Allocates : Machine → Option (ℕ × Machine) → Type 0
Allocates m none = (j : ℕ) → j < encl_max → is_invalid (m.enclaves j).state ≡ false
Allocates m (some (eid, m')) =
    (eid < encl_max) × ((m.enclaves eid).state ≡ invalid) × (m' ≡ with_state m eid allocated)

-- An id is given exactly if there is an invalid enclave, and it is one: that enclave becomes
-- allocated, and nothing else changes.
pub encl_alloc_eid_lem : (m : Machine) → Allocates m (encl_alloc_eid m)
unfolding encl_alloc_eid
encl_alloc_eid_lem m = elim (alloc_loop_lem encl_max 0 m.enclaves) [
  | inl (l, s) ↦
      let n : (alloc_loop encl_max 0 m.enclaves == encl_max) ≡ false = ground arith in
      rw n (ground arith, s, refl)
  | inr (e, all) ↦
      let n : (alloc_loop encl_max 0 m.enclaves == encl_max) ≡ true = ground arith in
      rw n (λ j l. all j (omega arith) (omega arith))
]
