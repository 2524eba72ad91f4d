-- ===== src/Edge/Bounds.antt =====
-- Which pointers and offsets are accepted, and that they agree (sdk/src/edge/edge_call.c).
use keystone_workspace.Base.{ℕ, ◌+◌, ◌-◌, ◌^◌, ◌≤◌, ◌<◌, ◌≡◌, ◌↔◌, some, arith}
use keystone_workspace.Edge.Shared.{
  Shared, EdgeCall, edge_call_get_ptr_from_offset, edge_call_check_ptr_valid,
  edge_call_get_offset_from_ptr, edge_call_args_ptr, edge_call_ret_ptr, edge_call_setup_call,
  edge_call_setup_ret,
}

-- A buffer that ends below 2^64.
abbrev pub Fits : Shared → Type 0
Fits s = s.shared_start + s.shared_len < 2 ^ 64

-- In a buffer that ends below 2^64, an offset gives a pointer exactly if it lies in the buffer and
-- the data behind it ends in the buffer, and the pointer is then that many bytes behind the start.
pub edge_call_get_ptr_from_offset_iff :
    (s : Shared) (offset data_len ptr : ℕ)
    → Fits s
    → (edge_call_get_ptr_from_offset s offset data_len ≡ some ptr) ↔ (
        (offset < s.shared_len)
        × (offset + data_len ≤ s.shared_len)
        × (ptr ≡ s.shared_start + offset))
unfolding edge_call_get_ptr_from_offset
edge_call_get_ptr_from_offset_iff s offset data_len ptr f = (λ h. ground arith, λ h. ground arith)

-- In a buffer that ends below 2^64, a 64-bit pointer is valid exactly if it is not before the start
-- and the data at it does not go beyond the end of the buffer.
pub edge_call_check_ptr_valid_iff :
    (s : Shared) (ptr data_len : ℕ)
    → Fits s
    → ptr < 2 ^ 64
    → (edge_call_check_ptr_valid s ptr data_len ≡ 0)
      ↔ ((s.shared_start ≤ ptr) × (ptr + data_len ≤ s.shared_start + s.shared_len))
unfolding edge_call_check_ptr_valid
edge_call_check_ptr_valid_iff s ptr data_len f w = (λ h. ground arith, λ h. ground arith)

-- The offset that is taken from a pointer gives the pointer back.
edge_call_get_ptr-offset_lem :
    (s : Shared) (ptr data_len : ℕ)
    → Fits s
    → s.shared_start ≤ ptr
    → ptr < s.shared_start + s.shared_len
    → ptr + data_len ≤ s.shared_start + s.shared_len
    → (edge_call_get_offset_from_ptr s ptr data_len ≡ (0, some (ptr - s.shared_start)))
      × (edge_call_get_ptr_from_offset s (ptr - s.shared_start) data_len ≡ some ptr)
unfolding edge_call_get_offset_from_ptr edge_call_get_ptr_from_offset edge_call_check_ptr_valid
edge_call_get_ptr-offset_lem s ptr data_len f l u e = (ground arith, ground arith)

-- What one side sets up as the arguments or the result of a call, the other side finds: in a buffer
-- that ends below 2^64, a pointer into the buffer whose data ends in it is accepted, and comes back
-- with its size. The id of the call stays.
pub edge_call_args_ptr-setup_call :
    (s : Shared) (c : EdgeCall) (ptr size : ℕ)
    → Fits s
    → s.shared_start ≤ ptr
    → ptr < s.shared_start + s.shared_len
    → ptr + size ≤ s.shared_start + s.shared_len
    → let (code, c') = edge_call_setup_call s c ptr size in
      let (code_ret, c'') = edge_call_setup_ret s c ptr size in
      ((code ≡ 0) × (edge_call_args_ptr s c' ≡ (some ptr, size)) × (c'.call_id ≡ c.call_id))
      × ((code_ret ≡ 0) × (edge_call_ret_ptr s c'' ≡ (some ptr, size)) × (c''.call_id ≡ c.call_id))
unfolding edge_call_setup_call edge_call_setup_ret edge_call_args_ptr edge_call_ret_ptr
edge_call_args_ptr-setup_call s c ptr size f l u e =
    let (o, p) = edge_call_get_ptr-offset_lem s ptr size f l u e in ground (arith, o, p)
