-- ===== src/Tests/Edge.antt =====
-- Concrete shared buffers and handlers.
use keystone_workspace.Base.{ℕ, ◌+◌, ◌<◌, ◌≤◌, ◌≡◌, ◌↔◌, none, some, arith, refl}
use keystone_workspace.Edge.Shared.{
  Shared, EdgeCall, edge_call_get_ptr_from_offset, edge_call_args_ptr, edge_call_ret_ptr,
  edge_call_setup_call, edge_call_setup_ret,
}
use keystone_workspace.Edge.Bounds.{
  edge_call_get_ptr_from_offset_iff, edge_call_args_ptr-setup_call,
}
use keystone_workspace.Edge.Syscall.{Posix}
use keystone_workspace.Edge.Dispatch.{Table, behind, incoming_call_dispatch, dispatch_behind}

abbrev buffer : Shared
buffer = record { shared_start = 0x8000_0000; shared_len = 0x1000 }

abbrev call : EdgeCall
call = record {
  call_id = 2;
  call_arg_offset = 0;
  call_arg_size = 0;
  call_status = 0;
  call_ret_offset = 0;
  call_ret_size = 0;
}

edge_call_get_ptr_from_offset_iff_example :
    (edge_call_get_ptr_from_offset buffer 0x40 8 ≡ some 0x8000_0040)
    ↔ ((0x40 < 0x1000) × (0x40 + 8 ≤ 0x1000) × (0x8000_0040 ≡ buffer.shared_start + 0x40))
edge_call_get_ptr_from_offset_iff_example =
    edge_call_get_ptr_from_offset_iff buffer 0x40 8 0x8000_0040 (omega arith)

edge_call_args_ptr-setup_call_example :
    let (code, c') = edge_call_setup_call buffer call 0x8000_0040 8 in
    let (code_ret, c'') = edge_call_setup_ret buffer call 0x8000_0040 8 in
    ((code ≡ 0) × (edge_call_args_ptr buffer c' ≡ (some 0x8000_0040, 8)) × (c'.call_id ≡ 2))
    × ((code_ret ≡ 0) × (edge_call_ret_ptr buffer c'' ≡ (some 0x8000_0040, 8)) × (c''.call_id ≡ 2))
edge_call_args_ptr-setup_call_example =
    edge_call_args_ptr-setup_call buffer call 0x8000_0040 8 (omega arith) (omega arith)
      (omega arith) (omega arith)

-- The host's state is a counter; C functions do nothing, and no handler is registered.
abbrev idle : Posix
idle c args mem = (0, mem)

abbrev no_handlers : Table ℕ
no_handlers n = none

dispatch_behind_example :
    (incoming_call_dispatch ℕ idle buffer no_handlers ((0, λ _. 0), call) ≡ behind)
    ↔ (◌≡◌ {A = ℕ} 2 10)
dispatch_behind_example = dispatch_behind ℕ idle buffer no_handlers ((0, λ _. 0), call)

-- The id behind the table
dispatch_past :
    incoming_call_dispatch ℕ idle buffer no_handlers ((0, λ _. 0), record call { call_id = 10 })
    ≡ behind
unfolding incoming_call_dispatch
dispatch_past = refl
