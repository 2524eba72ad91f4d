-- ===== src/Tests/Host.antt =====
-- System calls with a host that answers a read with four bytes.
use keystone_workspace.Base.{ℕ, List, ◌%◌, ◌^◌, ◌<◌, some, ◌+◌, ◌≡◌, inr, [], ◌∷◌, refl, arith}
use keystone_workspace.Sm.Measure.{read, le_bytes}
use keystone_workspace.Sm.Attest.{write}
use keystone_workspace.Edge.Shared.{edge_call_args_ptr, Shared, EdgeCall, edge_call_data_ptr}
use keystone_workspace.Rt.Calls.{
  CallState, EdgeHost, call_failed, host_runs, syscall_at, edgecall_syscall, io_syscall_read,
  io_syscall_write,
}
use keystone_workspace.Edge.Syscall.{Posix, incoming_syscall}
use keystone_workspace.Rt.Calls.Served.{serving, io_syscall_write-incoming_syscall}
use keystone_workspace.Rt.Calls.Sent.{Laid, io_syscall_write_lem}
use keystone_workspace.Rt.Calls.Bounds.{Effect, io_syscall_read_lem}

abbrev buffer : Shared
buffer = record { shared_start = 0x8000_0000; shared_len = 0x1000 }

abbrev no_call : EdgeCall
no_call = record {
  call_id = 0;
  call_arg_offset = 0;
  call_arg_size = 0;
  call_status = 0;
  call_ret_offset = 0;
  call_ret_size = 0;
}

-- Four bytes behind the arguments, and the number 4 as the result in front of them
abbrev answers : EdgeHost
answers shared call = (
  0,
  write (write shared 0x8000_0048 (11 ∷ 22 ∷ 33 ∷ 44 ∷ [])) 0x8000_0030 (le_bytes 8 4),
  record call { call_status = 0; call_ret_offset = 0x30; call_ret_size = 8 },
)

-- A host whose result is larger than the buffer of the application
abbrev boasts : EdgeHost
boasts shared call = (
  0,
  write (write shared 0x8000_0048 (11 ∷ 22 ∷ 33 ∷ 44 ∷ [])) 0x8000_0030 (le_bytes 8 0x4000_0000),
  record call { call_status = 0; call_ret_offset = 0x30; call_ret_size = 8 },
)

abbrev start : CallState
start = record { shared = λ _. 0; call = no_call; user = λ x. x }

answers_read : (io_syscall_read buffer answers start 3 0x100 4).0 ≡ 4
unfolding io_syscall_read edge_call_data_ptr read write le_bytes
answers_read = refl

answers_bytes :
    read (io_syscall_read buffer answers start 3 0x100 4).1.user 0x100 5
    ≡ 11 ∷ 22 ∷ 33 ∷ 44 ∷ 0x104 ∷ []
unfolding io_syscall_read read edge_call_data_ptr write le_bytes
answers_bytes = refl

boasts_bytes :
    read (io_syscall_read buffer boasts start 3 0x100 2).1.user 0x100 3 ≡ 11 ∷ 22 ∷ 0x102 ∷ []
unfolding io_syscall_read read edge_call_data_ptr write le_bytes
boasts_bytes = refl

too_long : (io_syscall_write buffer answers start 3 0x100 0xfb9).0 ≡ call_failed
unfolding io_syscall_write edge_call_data_ptr
too_long = refl

io_syscall_read_lem_example :
    Effect buffer boasts start.user (io_syscall_read buffer boasts start 3 0x100 2).1 0x100 2
    × ((io_syscall_read buffer boasts start 3 0x100 2).1.user 0x102 ≡ 0x102)
unfolding edge_call_data_ptr
io_syscall_read_lem_example =
    io_syscall_read_lem buffer boasts start 3 0x100 2 0x102 (omega arith) (omega arith)
      (inr (omega arith))

io_syscall_write_lem_example :
    (t : CallState) × (io_syscall_write buffer answers start 3 0x100 4 ≡ host_runs buffer answers t)
    × (edge_call_args_ptr buffer t.call ≡ (some (syscall_at buffer answers), 24 + 4))
    × (t.call.call_id ≡ edgecall_syscall)
    × Laid t.shared (syscall_at buffer answers) 64 3 4 (read start.user 0x100 4)
    × (t.user ≡ start.user)
io_syscall_write_lem_example =
    io_syscall_write_lem buffer answers start 3 0x100 4 (omega arith) (omega arith) (omega arith)

-- C functions that answer with their third argument
abbrev third : List ℕ → ℕ
third (a ∷ b ∷ c ∷ rest) = c % 2 ^ 64
third _ = 0

abbrev takes_all : Posix
takes_all c args mem = (third args, mem)

third_word : (args : List ℕ) → third args < 2 ^ 64
third_word [] = omega arith
third_word (a ∷ []) = omega arith
third_word (a ∷ b ∷ []) = omega arith
third_word (a ∷ b ∷ c ∷ rest) = omega arith

-- The runtime has the buffer at EYRIE_UNTRUSTED_START, the host at 0x4000_0000.
abbrev runtime_buffer : Shared
runtime_buffer = record { shared_start = 0xffff_ffff_8000_0000; shared_len = 0x1000 }

abbrev host_buffer : Shared
host_buffer = record { shared_start = 0x4000_0000; shared_len = 0x1000 }

abbrev server : EdgeHost
server = serving takes_all (λ _. 0) runtime_buffer host_buffer

served_write : (io_syscall_write runtime_buffer server start 3 0x100 4).0 ≡ 4
unfolding io_syscall_write incoming_syscall edge_call_data_ptr read write le_bytes
served_write = refl

io_syscall_write-incoming_syscall_example :
    (mem : ℕ → ℕ) × (read mem (host_buffer.shared_start + 72) 4 ≡ read start.user 0x100 4)
    × ((io_syscall_write runtime_buffer server start 3 0x100 4).0
        ≡ third (3 ∷ (host_buffer.shared_start + 72) ∷ 4 ∷ []))
io_syscall_write-incoming_syscall_example =
    io_syscall_write-incoming_syscall takes_all (λ _. 0) runtime_buffer host_buffer start 3 0x100 4
      (λ _ args _. third_word args) (omega arith) (omega arith) refl (omega arith) (omega arith)
