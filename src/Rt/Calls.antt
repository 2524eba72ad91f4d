-- ===== src/Rt/Calls.antt =====
-- System calls of the application that the runtime passes to the host (runtime/call/syscall.c and
-- runtime/call/io_wrap.c): those without a path. A copy from or to the application reaches all its
-- bytes. The host, which runs while the enclave is stopped, is a parameter.
pub mod Bytes
pub mod Bounds
pub mod Sent
pub mod Moved
pub mod Served
use keystone_workspace.Base.{
  ℕ, zero, suc, ◌+◌, ◌-◌, ◌*◌, ◌%◌, ◌^◌, Bool, true, false, not, ◌||◌, ltb, leb, ◌==◌,
  if◌then◌else◌, Option, none, some, List, [], ◌∷◌,
}
use keystone_workspace.Sm.Measure.{read, le_bytes}
use keystone_workspace.Sm.Attest.{write}
use keystone_workspace.Edge.Shared.{
  Shared, EdgeCall, edge_call_setup_call, edge_call_ret_ptr, edge_call_data_ptr,
  edge_call_check_ptr_valid, edge_call_get_ptr_from_offset,
}

-- The bytes that the host shares, by the runtime's addresses, the call at the start of the buffer,
-- and the bytes of the application
pub record CallState : Type 0 where
  pub shared : ℕ → ℕ
  pub call : EdgeCall
  pub user : ℕ → ℕ

-- sbi_stop_enclave(STOP_EDGE_CALL_HOST): its code, and what the host leaves in the buffer
abbrev pub EdgeHost : Type 0
EdgeHost = (ℕ → ℕ) → EdgeCall → ℕ × (ℕ → ℕ) × EdgeCall

-- (uintptr_t)-1
abbrev pub call_failed : ℕ
call_failed = 0xffff_ffff_ffff_ffff

-- EDGECALL_SYSCALL
abbrev pub edgecall_syscall : ℕ
edgecall_syscall = 11

abbrev pub call_status_ok : ℕ
call_status_ok = 0

-- A number of so many bytes, the low ones first
abbrev pub number : List ℕ → ℕ
number [] = 0
number (b ∷ bytes) = b + 256 * number bytes

abbrev pub load : (ℕ → ℕ) → ℕ → ℕ → ℕ
load mem a size = number (read mem a size)

abbrev pub put_number : CallState → ℕ → ℕ → ℕ → CallState
put_number s a size v = record s { shared = write s.shared a (le_bytes size v) }

abbrev pub copy_to_user : CallState → ℕ → ℕ → ℕ → CallState
copy_to_user s dst src size = record s { user = write s.user dst (read s.shared src size) }

abbrev pub copy_from_user : CallState → ℕ → ℕ → ℕ → CallState
copy_from_user s dst src size = record s { shared = write s.shared dst (read s.user src size) }

-- (int)ret < 0
abbrev pub is_negative_int : ℕ → Bool
is_negative_int ret = leb (2 ^ 31) (ret % 2 ^ 32)

module _ (b : Shared) (host : EdgeHost) where
  -- What the host returned, if it lies in the buffer
  unfoldable pub host_result : CallState → ℕ
  unfolding edge_call_ret_ptr
  host_result s =
      let (return_ptr, return_len) = edge_call_ret_ptr b s.call in
      elim return_ptr [
        | none ↦ call_failed
        | some p ↦ if ltb return_len 8 then call_failed else load s.shared p 8
      ]

  -- The host runs; `int ret` keeps 32 bits of the code.
  abbrev pub host_runs : CallState → ℕ × CallState
  host_runs s =
      let (code, shared, call) = host s.shared s.call in
      let t = record s { shared = shared; call = call } in
      if not (code % 2 ^ 32 == 0) || not (call.call_status == call_status_ok)
      then (call_failed, t)
      else (host_result t, t)

  unfoldable pub dispatch_edgecall_syscall : CallState → ℕ → ℕ → ℕ × CallState
  unfolding edge_call_setup_call host_result
  dispatch_edgecall_syscall s syscall_data_ptr data_len =
      let c = record s.call { call_id = edgecall_syscall } in
      let (code, call) = edge_call_setup_call b c syscall_data_ptr data_len in
      let t = record s { call = call } in if not (code == 0) then (call_failed, t) else host_runs t

  -- The result is 1 on every error. `ret` has 64 bits here.
  unfoldable pub dispatch_edgecall_ocall : CallState → ℕ → ℕ → ℕ → ℕ → ℕ → ℕ × CallState
  unfolding edge_call_setup_call edge_call_ret_ptr
  dispatch_edgecall_ocall s call_id source data_len return_buffer return_len =
      let start = edge_call_data_ptr b in
      let c = record s.call { call_id = call_id } in
      let s1 = copy_from_user (record s { call = c }) start source data_len in
      let (code, call) = edge_call_setup_call b c start data_len in
      let (ret, shared, call') = host s1.shared call in
      let t = record s1 { shared = shared; call = call' } in
      let (return_ptr, ret_len) = edge_call_ret_ptr b call' in
      let room = (b.shared_len + 2 ^ 64 - (start + 2 ^ 64 - b.shared_start) % 2 ^ 64) % 2 ^ 64 in
      if ltb room data_len
      then (1, record s { call = c })
      else if not (code == 0)
      then (1, record s1 { call = call })
      else if not (ret == 0) || not (call'.call_status == call_status_ok)
      then (1, t)
      else if return_len == 0
      then (0, t)
      else elim return_ptr [
        | none ↦ (1, t)
        | some p ↦ (
          0,
          copy_to_user t return_buffer p (if ltb return_len ret_len then return_len else ret_len),
        )
      ]

  unfoldable pub handle_copy_from_shared : CallState → ℕ → ℕ → ℕ → ℕ × CallState
  unfolding edge_call_get_ptr_from_offset
  handle_copy_from_shared s dst offset size = elim (edge_call_get_ptr_from_offset b offset size) [
    | none ↦ (1, s)
    | some p ↦ (0, copy_to_user s dst p size)
  ]

  -- `struct edge_syscall` at the start of the data: the number of the call, and the arguments
  abbrev pub syscall_at : ℕ
  syscall_at = edge_call_data_ptr b

  abbrev pub args_at : ℕ
  args_at = edge_call_data_ptr b + 8

  abbrev pub numbered : CallState → ℕ → CallState
  numbered s n = put_number s syscall_at 8 n

  -- The call with arguments of so many bytes
  abbrev pub dispatched : CallState → ℕ → ℕ × CallState
  dispatched s size = dispatch_edgecall_syscall s syscall_at (8 + size)

  unfoldable pub io_syscall_sync : CallState → ℕ × CallState
  unfolding dispatch_edgecall_syscall
  io_syscall_sync s = dispatched (numbered s 81) 0

  unfoldable pub io_syscall_ftruncate : CallState → ℕ → ℕ → ℕ × CallState
  unfolding dispatch_edgecall_syscall
  io_syscall_ftruncate s fd offset =
      dispatched (put_number (put_number (numbered s 46) args_at 4 fd) (args_at + 8) 8 offset) 16

  unfoldable pub io_syscall_fsync : CallState → ℕ → ℕ × CallState
  unfolding dispatch_edgecall_syscall
  io_syscall_fsync s fd = dispatched (put_number (numbered s 82) args_at 4 fd) 4

  unfoldable pub io_syscall_close : CallState → ℕ → ℕ × CallState
  unfolding dispatch_edgecall_syscall
  io_syscall_close s fd = dispatched (put_number (numbered s 57) args_at 4 fd) 4

  unfoldable pub io_syscall_lseek : CallState → ℕ → ℕ → ℕ → ℕ × CallState
  unfolding dispatch_edgecall_syscall
  io_syscall_lseek s fd offset whence =
      let t = put_number (put_number (numbered s 62) args_at 4 fd) (args_at + 8) 8 offset in
      dispatched (put_number t (args_at + 16) 4 whence) 24

  unfoldable pub io_syscall_umask : CallState → ℕ → ℕ × CallState
  unfolding dispatch_edgecall_syscall
  io_syscall_umask s mask = dispatched (put_number (numbered s 166) args_at 4 mask) 4

  unfoldable pub io_syscall_epoll_create : CallState → ℕ → ℕ × CallState
  unfolding dispatch_edgecall_syscall
  io_syscall_epoll_create s size = dispatched (put_number (numbered s 20) args_at 4 1024) 4

  -- Two descriptors come back in the arguments.
  unfoldable pub io_syscall_pipe : CallState → ℕ → ℕ × CallState
  unfolding dispatch_edgecall_syscall
  io_syscall_pipe s fds =
      let (ret, t) = dispatched (numbered s 59) 0 in
      if ret == 0 then (ret, copy_to_user t fds args_at 8) else (ret, t)

  -- `struct stat` has 128 bytes.
  unfoldable pub io_syscall_fstat : CallState → ℕ → ℕ → ℕ × CallState
  unfolding dispatch_edgecall_syscall
  io_syscall_fstat s fd statbuf =
      let (ret, t) = dispatched (put_number (numbered s 80) args_at 4 fd) 136 in
      if ret == 0 then (ret, copy_to_user t statbuf (args_at + 8) 128) else (ret, t)

  -- The size is the application's, and is not tested.
  unfoldable pub io_syscall_getcwd : CallState → ℕ → ℕ → ℕ × CallState
  unfolding dispatch_edgecall_syscall
  io_syscall_getcwd s buf size =
      let (_, t) = dispatched (put_number (numbered s 17) args_at 8 size) 8 in
      (buf, copy_to_user t buf (args_at + 8) size)

  abbrev pub sized : CallState → ℕ → ℕ → ℕ → CallState
  sized s n fd len = put_number (put_number (numbered s n) args_at 4 fd) (args_at + 8) 8 len

  abbrev pub buf_at : ℕ
  buf_at = args_at + 16

  unfoldable pub io_syscall_read : CallState → ℕ → ℕ → ℕ → ℕ × CallState
  unfolding dispatch_edgecall_syscall edge_call_check_ptr_valid
  io_syscall_read s fd buf len =
      let t = sized s 63 fd len in
      let (ret, u) = dispatched t ((16 + len) % 2 ^ 64) in
      if not (edge_call_check_ptr_valid b buf_at len == 0)
      then (call_failed, t)
      else if is_negative_int ret
      then (ret, u)
      else (ret, copy_to_user u buf buf_at (if ltb len ret then len else ret))

  unfoldable pub io_syscall_write : CallState → ℕ → ℕ → ℕ → ℕ × CallState
  unfolding dispatch_edgecall_syscall edge_call_check_ptr_valid
  io_syscall_write s fd buf len =
      let t = sized s 64 fd len in
      if not (edge_call_check_ptr_valid b buf_at len == 0)
      then (call_failed, t)
      else dispatched (copy_from_user t buf_at buf len) ((16 + len) % 2 ^ 64)

  -- The parts of an iovec in the application's memory, one after the other: `ret >= 0` always holds.
  unfoldable pub writev_loop : ℕ → CallState → ℕ → ℕ → ℕ → ℕ × CallState
  unfolding io_syscall_write
  writev_loop zero s fd iov total = (total, s)
  writev_loop (suc n) s fd iov total =
      let (ret, t) = io_syscall_write s fd (load s.user iov 8) (load s.user (iov + 8) 8) in
      writev_loop n t fd (iov + 16) ((total + ret) % 2 ^ 64)

  unfoldable pub readv_loop : ℕ → CallState → ℕ → ℕ → ℕ → ℕ × CallState
  unfolding io_syscall_read
  readv_loop zero s fd iov total = (total, s)
  readv_loop (suc n) s fd iov total =
      let (ret, t) = io_syscall_read s fd (load s.user iov 8) (load s.user (iov + 8) 8) in
      readv_loop n t fd (iov + 16) ((total + ret) % 2 ^ 64)

  abbrev pub io_syscall_writev : CallState → ℕ → ℕ → ℕ → ℕ × CallState
  io_syscall_writev s fd iov iovcnt = writev_loop iovcnt s fd iov 0

  abbrev pub io_syscall_readv : CallState → ℕ → ℕ → ℕ → ℕ × CallState
  io_syscall_readv s fd iov iovcnt = readv_loop iovcnt s fd iov 0
