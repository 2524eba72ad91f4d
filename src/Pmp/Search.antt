-- ===== src/Pmp/Search.antt =====
-- `search_rightmost_unset` of sm/src/pmp.c: the lowest place at which a mask of ones fits into the
-- clear bits of a bitmap.
pub mod Laws
use keystone_workspace.Base.{
  ℕ, zero, suc, ◌+◌, ◌%◌, ◌^◌, Bool, ltb, ◌==◌, if◌then◌else◌, Option, some, none,
}
use keystone_workspace.Base.Outcome.{Outcome, ret, ◌>>=◌, ◌>>◌, sm_assert}
use keystone_workspace.Base.Words.{band, bnot, shl}

-- The `while` loop; `none` stands for -1. The mask doubles in each round, and `max` is below 32,
-- so that 32 rounds are enough.
unfoldable pub search_loop : ℕ → ℕ → ℕ → ℕ → ℕ → Option ℕ
search_loop zero bitmap max mask i = none
search_loop (suc fuel) bitmap max mask i =
    let rest = search_loop fuel bitmap max (shl 32 mask 1) (i + 1) in
    let found = if band 32 (bnot 32 bitmap) mask == mask then some i else rest in
    if ltb mask (2 ^ max) then found else none

unfoldable pub search_rightmost_unset : ℕ → ℕ → ℕ → Outcome (Option ℕ)
search_rightmost_unset bitmap max mask = do
  sm_assert (ltb max 32)
  sm_assert (band 32 ((mask + 1) % 2 ^ 32) mask == 0)
  ret (search_loop 32 bitmap max mask 0)
