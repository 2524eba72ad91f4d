-- ===== src/Edge/Shared.antt =====
-- Pointers and offsets into the shared buffer (sdk/src/edge/edge_call.c,
-- sdk/include/edge/edge_common.h). The two variables of the file are the record Shared; every
-- number is a 64-bit word.
use keystone_workspace.Base.{
  ℕ, ◌+◌, ◌-◌, ◌%◌, ◌^◌, ◌||◌, ltb, leb, ◌==◌, not, if◌then◌else◌, Option, none, some, ◌++◌,
}
use keystone_workspace.Sm.Measure.{read, le_bytes}
use keystone_workspace.Sm.Attest.{write}

pub record Shared : Type 0 where
  pub shared_start : ℕ
  pub shared_len : ℕ

-- struct edge_call, with its struct edge_return
pub record EdgeCall : Type 0 where
  pub call_id : ℕ
  pub call_arg_offset : ℕ
  pub call_arg_size : ℕ
  pub call_status : ℕ
  pub call_ret_offset : ℕ
  pub call_ret_size : ℕ

abbrev pub uintptr_max : ℕ
uintptr_max = 0xffff_ffff_ffff_ffff

-- The bytes of struct edge_call (six words) and of struct edge_data (two).
abbrev pub edge_call_size : ℕ
edge_call_size = 48

abbrev pub edge_data_size : ℕ
edge_data_size = 16

abbrev pub edge_call_init_internals : ℕ → ℕ → Shared
edge_call_init_internals buffer_start buffer_len = record {
  shared_start = buffer_start;
  shared_len = buffer_len;
}

-- `none` is -1.
unfoldable pub edge_call_get_ptr_from_offset : Shared → ℕ → ℕ → Option ℕ
edge_call_get_ptr_from_offset s offset data_len =
    let ptr = (s.shared_start + offset) % 2 ^ 64 in
    if ltb (uintptr_max - s.shared_start) offset || leb s.shared_len offset
    then none
    else if ltb (uintptr_max - ptr) data_len || ltb (s.shared_len - offset) data_len
    then none
    else some ptr

unfoldable pub edge_call_check_ptr_valid : Shared → ℕ → ℕ → ℕ
edge_call_check_ptr_valid s ptr data_len =
    let end = (s.shared_start + s.shared_len) % 2 ^ 64 in
    if ltb end ptr || ltb ptr s.shared_start
    then 1
    else if ltb (uintptr_max - ptr) data_len
    then 2
    else if ltb end ((ptr + data_len) % 2 ^ 64)
    then 3
    else 0

-- The code, and the offset where it was written.
unfoldable pub edge_call_get_offset_from_ptr : Shared → ℕ → ℕ → ℕ × Option ℕ
unfolding edge_call_check_ptr_valid
edge_call_get_offset_from_ptr s ptr data_len =
    let valid = edge_call_check_ptr_valid s ptr data_len in
    if not (valid == 0) then (valid, none) else (0, some ((ptr + 2 ^ 64 - s.shared_start) % 2 ^ 64))

abbrev pub or_old : Option ℕ → ℕ → ℕ
or_old none old = old
or_old (some new) old = new

-- The pointer and the size.
unfoldable pub edge_call_args_ptr : Shared → EdgeCall → Option ℕ × ℕ
unfolding edge_call_get_ptr_from_offset
edge_call_args_ptr s c =
    (edge_call_get_ptr_from_offset s c.call_arg_offset c.call_arg_size, c.call_arg_size)

unfoldable pub edge_call_ret_ptr : Shared → EdgeCall → Option ℕ × ℕ
unfolding edge_call_get_ptr_from_offset
edge_call_ret_ptr s c =
    (edge_call_get_ptr_from_offset s c.call_ret_offset c.call_ret_size, c.call_ret_size)

unfoldable pub edge_call_setup_call : Shared → EdgeCall → ℕ → ℕ → ℕ × EdgeCall
unfolding edge_call_get_offset_from_ptr
edge_call_setup_call s c ptr size =
    let (code, offset) = edge_call_get_offset_from_ptr s ptr size in
    (code, record c { call_arg_size = size; call_arg_offset = or_old offset c.call_arg_offset })

unfoldable pub edge_call_setup_ret : Shared → EdgeCall → ℕ → ℕ → ℕ × EdgeCall
unfolding edge_call_get_offset_from_ptr
edge_call_setup_ret s c ptr size =
    let (code, offset) = edge_call_get_offset_from_ptr s ptr size in
    (code, record c { call_ret_size = size; call_ret_offset = or_old offset c.call_ret_offset })

-- `junk` is what the local `data_wrapper.offset` holds where it is not written. The call's own
-- record is not in the copied bytes.
unfoldable pub edge_call_setup_wrapped_ret :
    Shared → ℕ → (ℕ → ℕ) → EdgeCall → ℕ → ℕ → ℕ × EdgeCall × (ℕ → ℕ)
unfolding edge_call_get_offset_from_ptr edge_call_setup_ret
edge_call_setup_wrapped_ret s junk mem c ptr size =
    let wrapper = (s.shared_start + edge_call_size) % 2 ^ 64 in
    let content = (wrapper + edge_data_size) % 2 ^ 64 in
    let offset = or_old (edge_call_get_offset_from_ptr s content edge_data_size).1 junk in
    let mem1 = write mem content (read mem ptr size) in
    let mem2 = write mem1 wrapper (le_bytes 8 offset ++ le_bytes 8 size) in
    let (code, c1) = edge_call_setup_ret s c wrapper edge_data_size in (code, c1, mem2)

unfoldable pub edge_call_data_ptr : Shared → ℕ
edge_call_data_ptr s = (s.shared_start + edge_call_size) % 2 ^ 64
