-- ===== src/Pmp/State.antt =====
-- The region table and the two bitmaps of sm/src/pmp.c, with their getters and setters.
-- The constants are those of sm/src/platform/generic/platform.h.
use keystone_workspace.Base.{
  ℕ, ◌+◌, ◌-◌, ◌*◌, ◌/◌, ◌%◌, ◌^◌, Bool, true, false, ◌&&◌, ltb, ◌==◌, if◌then◌else◌, update,
}
use keystone_workspace.Base.Words.{bor, shl, shr}
use keystone_workspace.Pmp.Bitmap.{test_bit}

abbrev pub pmp_n_reg : ℕ
pmp_n_reg = 8

abbrev pub pmp_max_n_region : ℕ
pmp_max_n_region = 16

abbrev pub pmp_per_group : ℕ
pmp_per_group = 8

-- RISCV_PGSIZE
abbrev pub page_size : ℕ
page_size = 4096

-- -1UL
abbrev pub ulong_max : ℕ
ulong_max = 0xffff_ffff_ffff_ffff

-- The address modes that the code writes: 0, PMP_A_TOR and PMP_A_NAPOT.
pub data AddrMode : Type 0 where
  off tor napot : AddrMode

-- Their bits in a configuration byte, as the RISC-V privileged architecture defines them.
abbrev pub mode_bits : AddrMode → ℕ
mode_bits off = 0x00
mode_bits tor = 0x08
mode_bits napot = 0x18

abbrev pub is_tor : AddrMode → Bool
is_tor tor = true
is_tor _ = false

abbrev pub is_napot : AddrMode → Bool
is_napot napot = true
is_napot _ = false

-- PMP_R, PMP_W and PMP_X together
abbrev pub pmp_all_perm : ℕ
pmp_all_perm = 0x07

abbrev pub pmp_no_perm : ℕ
pmp_no_perm = 0

pub data Priority : Type 0 where
  any top bottom : Priority

-- `allow_overlap` is read as a truth value only.
pub record Region : Type 0 where
  pub size : ℕ
  pub addrmode : AddrMode
  pub addr : ℕ
  pub allow_overlap : Bool
  pub reg_idx : ℕ

-- The static variables of pmp.c.
pub record Pmp : Type 0 where
  pub regions : ℕ → Region
  pub reg_bitmap : ℕ
  pub region_def_bitmap : ℕ

unfoldable pub region_needs_two_entries : Pmp → ℕ → Bool
region_needs_two_entries p i = is_tor (p.regions i).addrmode && ltb 0 (p.regions i).reg_idx

unfoldable pub region_is_napot_all : Pmp → ℕ → Bool
region_is_napot_all p i = (p.regions i).addr == 0 && (p.regions i).size == ulong_max

unfoldable pub region_pmpaddr_val : Pmp → ℕ → ℕ
unfolding region_is_napot_all
region_pmpaddr_val p i =
    let r = p.regions i in
    if region_is_napot_all p i
    then ulong_max
    else if is_napot r.addrmode
    then shr (bor 64 r.addr ((r.size / 2 + 2 ^ 64 - 1) % 2 ^ 64)) 2
    else if is_tor r.addrmode
    then shr ((r.addr + r.size) % 2 ^ 64) 2
    else 0

-- The permission bits are added by `|`, and shifted to the byte of the register.
unfoldable pub region_pmpcfg_val : Pmp → ℕ → ℕ → ℕ → ℕ
region_pmpcfg_val p i reg_idx perm_bits =
    shl 64 (bor 64 (mode_bits (p.regions i).addrmode) perm_bits) (8 * (reg_idx % pmp_per_group))

abbrev pub cleared_region : Region
cleared_region = record { size = 0; addrmode = off; addr = 0; allow_overlap = false; reg_idx = 0 }

unfoldable pub region_clear_all : Pmp → ℕ → Pmp
region_clear_all p i = record p { regions = update p.regions i cleared_region }

unfoldable pub region_init : Pmp → ℕ → ℕ → ℕ → AddrMode → Bool → ℕ → Pmp
region_init p i addr size addrmode allow_overlap reg_idx = record p {
  regions = update p.regions i (record {
    size = size;
    addrmode = addrmode;
    addr = addr;
    allow_overlap = allow_overlap;
    reg_idx = if is_tor addrmode && ltb 0 reg_idx then reg_idx + 1 else reg_idx;
  });
}

unfoldable pub is_pmp_region_valid : Pmp → ℕ → Bool
is_pmp_region_valid p i = test_bit p.region_def_bitmap i

unfoldable pub pmp_region_get_addr : Pmp → ℕ → ℕ
pmp_region_get_addr p i = if is_pmp_region_valid p i then (p.regions i).addr else 0

unfoldable pub pmp_region_get_size : Pmp → ℕ → ℕ
pmp_region_get_size p i = if is_pmp_region_valid p i then (p.regions i).size else 0

-- The static variables before any call.
abbrev pub initial : Pmp
initial = record { regions = λ i. cleared_region; reg_bitmap = 0; region_def_bitmap = 0 }
