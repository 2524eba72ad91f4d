-- ===== src/Pmp/Init.antt =====
-- Allocation and release of regions: sm/src/pmp.c, `detect_region_overlap` to `pmp_region_init`.
-- The spin lock of the `_atomic` functions is held for the whole call, so they are the calls
-- themselves. An out-parameter `rid` is an option: `none` where the code has not written it.
pub mod Total
pub mod Entries
use keystone_workspace.Base.{
  ℕ, zero, suc, ◌+◌, ◌-◌, ◌%◌, ◌^◌, Bool, true, false, not, ◌&&◌, ◌||◌, ltb, leb, ◌==◌,
  if◌then◌else◌, Option, none, some,
}
use keystone_workspace.Base.Outcome.{Outcome, ret, hang, ◌>>=◌, ◌>>◌, sm_assert}
use keystone_workspace.Base.Words.{band}
use keystone_workspace.Pmp.Bitmap.{set_bit, unset_bit, test_bit}
use keystone_workspace.Pmp.Search.{search_rightmost_unset}
use keystone_workspace.Pmp.State.{
  pmp_n_reg, pmp_max_n_region, page_size, ulong_max, AddrMode, tor, napot, Priority, any, top,
  bottom, Region, Pmp, region_needs_two_entries, region_clear_all, region_init, is_pmp_region_valid,
}

-- The codes of sdk/include/shared/sm_err.h.
abbrev pub pmp_success : ℕ
pmp_success = 0

abbrev pub region_size_invalid : ℕ
region_size_invalid = 100020

abbrev pub region_not_page_granularity : ℕ
region_not_page_granularity = 100021

abbrev pub region_max_reached : ℕ
region_max_reached = 100023

abbrev pub region_invalid : ℕ
region_invalid = 100024

abbrev pub region_overlap : ℕ
region_overlap = 100025

abbrev pub region_impossible_tor : ℕ
region_impossible_tor = 100026

-- The body of the loop: does region `i` meet [addr, input_end)?
unfoldable pub overlaps : Pmp → ℕ → ℕ → ℕ → Bool
overlaps p addr input_end i =
    is_pmp_region_valid p i
    && not (p.regions i).allow_overlap
    && ltb (p.regions i).addr input_end
    && ltb addr (((p.regions i).addr + (p.regions i).size) % 2 ^ 64)

-- `rounds` rounds of the loop, from index `i`.
unfoldable pub overlap_loop : Pmp → ℕ → ℕ → ℕ → ℕ → Bool → Bool
overlap_loop p addr input_end zero i acc = acc
overlap_loop p addr input_end (suc rounds) i acc =
    overlap_loop p addr input_end rounds (i + 1) (acc || overlaps p addr input_end i)

-- A sum that CHECKED_ADD refuses counts as an overlap.
unfoldable pub detect_region_overlap : Pmp → ℕ → ℕ → Bool
detect_region_overlap p addr size =
    if leb (2 ^ 64) (addr + size)
    then true
    else overlap_loop p addr (addr + size) pmp_max_n_region 0 false

-- What `pmp_region_init` returns: the code, the region id if it was written, and the state.
pub record InitResult : Type 0 where
  pub code : ℕ
  pub rid : Option ℕ
  pub pmp : Pmp

abbrev pub failed : Pmp → ℕ → Option ℕ → Outcome InitResult
failed p code rid = ret (record { code = code; rid = rid; pmp = p })

-- The end of `napot_region_init`, where the register is known.
unfoldable pub napot_commit : Pmp → ℕ → ℕ → Bool → ℕ → ℕ → Outcome InitResult
napot_commit p start size allow_overlap region_idx reg_idx =
    let q = region_init p region_idx start size napot allow_overlap reg_idx in
    ret (record {
      code = pmp_success;
      rid = some region_idx;
      pmp = record q {
        region_def_bitmap = set_bit q.region_def_bitmap region_idx;
        reg_bitmap = set_bit q.reg_bitmap reg_idx;
      };
    })

-- The register that a priority asks for, or the error.
unfoldable pub napot_reg : Pmp → Priority → Outcome (Option ℕ)
napot_reg p any = do
  found ← search_rightmost_unset p.reg_bitmap pmp_n_reg 0x1
  ret (elim found [
    | none ↦ none
    | some reg_idx ↦
        if test_bit p.reg_bitmap reg_idx || leb pmp_n_reg reg_idx then none else some reg_idx
  ])
napot_reg p top = ret (if test_bit p.reg_bitmap 0 then none else some 0)
napot_reg p bottom = ret (some (pmp_n_reg - 1))

-- size & (size - 1), start & (size - 1) and the like vanish
abbrev pub no_common : ℕ → ℕ → Bool
no_common a b = band 64 a ((b + 2 ^ 64 - 1) % 2 ^ 64) == 0

-- From the register on.
napot_with : Pmp → ℕ → ℕ → Bool → ℕ → Option ℕ → Outcome InitResult
unfolding napot_commit
napot_with p start size allow_overlap region_idx none =
    failed p region_max_reached (some region_idx)
napot_with p start size allow_overlap region_idx (some reg_idx) =
    napot_commit p start size allow_overlap region_idx reg_idx

-- From the index of the region on.
napot_at : Pmp → ℕ → ℕ → Priority → Bool → Option ℕ → Outcome InitResult
unfolding napot_reg napot_with
napot_at p start size priority allow_overlap none = failed p region_max_reached none
napot_at p start size priority allow_overlap (some region_idx) =
    if ltb pmp_max_n_region region_idx
    then failed p region_max_reached none
    else do reg ← napot_reg p priority; napot_with p start size allow_overlap region_idx reg

unfoldable pub napot_region_init : Pmp → ℕ → ℕ → Priority → Bool → Outcome InitResult
unfolding napot_at
napot_region_init p start size priority allow_overlap = do
  sm_assert (not (size == 0))
  sm_assert (
      if size == ulong_max && start == 0
      then true
      else no_common size size
        && no_common start size
        && no_common size page_size
        && no_common start page_size)
  found ← search_rightmost_unset p.region_def_bitmap pmp_max_n_region 0x1
  napot_at p start size priority allow_overlap found

unfoldable pub tor_commit : Pmp → ℕ → ℕ → Bool → ℕ → ℕ → Outcome InitResult
tor_commit p start size allow_overlap region_idx reg_idx =
    let q = region_init p region_idx start size tor allow_overlap reg_idx in
    let one = set_bit q.reg_bitmap reg_idx in
    ret (record {
      code = pmp_success;
      rid = some region_idx;
      pmp = record q {
        region_def_bitmap = set_bit q.region_def_bitmap region_idx;
        reg_bitmap = if ltb 0 reg_idx then set_bit one (reg_idx + 1) else one;
      };
    })

unfoldable pub tor_reg : Pmp → ℕ → Priority → Outcome (Option ℕ)
tor_reg p start any = do
  found ← search_rightmost_unset p.reg_bitmap pmp_n_reg 0x3
  ret (elim found [
    | none ↦ none
    | some reg_idx ↦
        if test_bit p.reg_bitmap reg_idx
          || test_bit p.reg_bitmap (reg_idx + 1)
          || leb pmp_n_reg (reg_idx + 1)
        then none
        else some reg_idx
  ])
tor_reg p start top = do
  sm_assert (start == 0)
  ret (if test_bit p.reg_bitmap 0 then none else some 0)
tor_reg p start bottom = hang

abbrev pub is_bottom : Priority → Bool
is_bottom bottom = true
is_bottom _ = false

abbrev pub is_any : Priority → Bool
is_any any = true
is_any _ = false

abbrev pub is_top : Priority → Bool
is_top top = true
is_top _ = false

-- From the register on.
tor_with : Pmp → ℕ → ℕ → Bool → ℕ → Option ℕ → Outcome InitResult
unfolding tor_commit
tor_with p start size allow_overlap region_idx none = failed p region_max_reached (some region_idx)
tor_with p start size allow_overlap region_idx (some reg_idx) =
    tor_commit p start size allow_overlap region_idx reg_idx

-- From the index of the region on.
tor_at : Pmp → ℕ → ℕ → Priority → Bool → Option ℕ → Outcome InitResult
unfolding tor_reg tor_with
tor_at p start size priority allow_overlap none = failed p region_max_reached none
tor_at p start size priority allow_overlap (some region_idx) =
    if ltb pmp_max_n_region region_idx
    then failed p region_max_reached none
    else do reg ← tor_reg p start priority; tor_with p start size allow_overlap region_idx reg

unfoldable pub tor_region_init : Pmp → ℕ → ℕ → Priority → Bool → Outcome InitResult
unfolding tor_at
tor_region_init p start size priority allow_overlap = do
  sm_assert (not (size == 0))
  sm_assert (no_common size page_size)
  sm_assert (no_common start page_size)
  sm_assert (not (is_bottom priority))
  found ← search_rightmost_unset p.region_def_bitmap pmp_max_n_region 0x1
  tor_at p start size priority allow_overlap found

-- The tests of `pmp_region_init`, after those for size and overlap.
unfoldable pub init_checked : Pmp → ℕ → ℕ → Priority → Bool → Outcome InitResult
init_checked p start size priority allow_overlap =
    if not (size == ulong_max) && not (no_common size page_size)
    then failed p region_not_page_granularity none
    else if not (no_common start page_size)
    then failed p region_not_page_granularity none
    else if size == ulong_max && start == 0 || no_common size size && no_common start size
    then napot_region_init p start size priority allow_overlap
    else if not (is_any priority) && (not (is_top priority) || not (start == 0))
    then failed p region_impossible_tor none
    else tor_region_init p start size priority allow_overlap

unfoldable pub pmp_region_init : Pmp → ℕ → ℕ → Priority → Bool → Outcome InitResult
unfolding init_checked
pmp_region_init p start size priority allow_overlap =
    if size == 0
    then failed p region_size_invalid none
    else if not allow_overlap && detect_region_overlap p start size
    then failed p region_overlap none
    else init_checked p start size priority allow_overlap

unfoldable pub pmp_region_free : Pmp → ℕ → ℕ × Pmp
pmp_region_free p region_idx =
    if not (is_pmp_region_valid p region_idx)
    then (region_invalid, p)
    else let reg_idx = (p.regions region_idx).reg_idx in
      let one = unset_bit p.reg_bitmap reg_idx in
      let q = record p {
        region_def_bitmap = unset_bit p.region_def_bitmap region_idx;
        reg_bitmap =
            if region_needs_two_entries p region_idx then unset_bit one (reg_idx - 1) else one;
      } in
      (pmp_success, region_clear_all q region_idx)
