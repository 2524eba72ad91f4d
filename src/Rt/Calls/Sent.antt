-- ===== src/Rt/Calls/Sent.antt =====
-- What io_syscall_write hands to the host (runtime/call/io_wrap.c, runtime/call/syscall.c).
use keystone_workspace.Base.{
  ℕ, ◌+◌, ◌^◌, ◌%◌, ◌≤◌, ◌<◌, ◌≡◌, inl, List, some, arith, refl, ◌∙◌, length,
}
use keystone_workspace.Sm.Measure.{read, le_bytes}
use keystone_workspace.Sm.Attest.{write}
use keystone_workspace.Edge.Shared.{
  Shared, EdgeCall, edge_call_setup_call, edge_call_args_ptr, edge_call_check_ptr_valid,
  edge_call_data_ptr,
}
use keystone_workspace.Edge.Bounds.{
  Fits, edge_call_check_ptr_valid_iff, edge_call_args_ptr-setup_call,
}
use keystone_workspace.Rt.Calls.{
  CallState, EdgeHost, dispatch_edgecall_syscall, edgecall_syscall, sized, buf_at, syscall_at, load,
  io_syscall_write, copy_from_user, host_runs,
}
use keystone_workspace.Rt.Calls.Bytes.{
  Apart, length-read, length-le_bytes, read-write, read-write-Apart, number-le_bytes,
}

pub load-write : (mem : ℕ → ℕ) (a n v : ℕ) → v < 256 ^ n → load (write mem a (le_bytes n v)) a n ≡ v
load-write mem a n v l =
    rw (read-write mem a (le_bytes n v) n (length-le_bytes n v)) (number-le_bytes n v l)

load-write-Apart :
    (mem : ℕ → ℕ) (a : ℕ) (bytes : List ℕ) (m c n : ℕ)
    → length bytes ≡ m
    → Apart c n a m
    → load (write mem a bytes) c n ≡ load mem c n
load-write-Apart mem a bytes m c n e o = rw (read-write-Apart mem a bytes c n (rw e o)) refl

-- The number of the call, two arguments of four and eight bytes, and bytes behind them
pub record Laid (mem : ℕ → ℕ) (at num fd len : ℕ) (bytes : List ℕ) : Type 0 where
  pub num_at : load mem at 8 ≡ num
  pub fd_at : load mem (at + 8) 4 ≡ fd
  pub len_at : load mem (at + 8 + 8) 8 ≡ len
  pub bytes_at : read mem (at + 8 + 16) len ≡ bytes

Laid-write :
    (mem : ℕ → ℕ) (at num fd len : ℕ) (bytes : List ℕ)
    → num < 256 ^ 8
    → fd < 256 ^ 4
    → len < 256 ^ 8
    → length bytes ≡ len
    → Laid
        (write
          (write
            (write (write mem at (le_bytes 8 num)) (at + 8) (le_bytes 4 fd))
            (at + 8 + 8)
            (le_bytes 8 len))
          (at + 8 + 16)
          bytes)
        at
        num
        fd
        len
        bytes
Laid-write mem at num fd len bytes ln lf ll e =
    let m1 = write mem at (le_bytes 8 num) in
    let m2 = write m1 (at + 8) (le_bytes 4 fd) in
    let m3 = write m2 (at + 8 + 8) (le_bytes 8 len) in
    record {
      num_at =
          load-write-Apart m3 (at + 8 + 16) bytes len at 8 e (inl (omega arith))
          ∙ load-write-Apart m2 (at + 8 + 8) (le_bytes 8 len) 8 at 8 (length-le_bytes 8 len)
              (inl (omega arith))
          ∙ load-write-Apart m1 (at + 8) (le_bytes 4 fd) 4 at 8 (length-le_bytes 4 fd)
              (inl (omega arith))
          ∙ load-write mem at 8 num ln;
      fd_at =
          load-write-Apart m3 (at + 8 + 16) bytes len (at + 8) 4 e (inl (omega arith))
          ∙ load-write-Apart m2 (at + 8 + 8) (le_bytes 8 len) 8 (at + 8) 4 (length-le_bytes 8 len)
              (inl (omega arith))
          ∙ load-write m1 (at + 8) 4 fd lf;
      len_at =
          load-write-Apart m3 (at + 8 + 16) bytes len (at + 8 + 8) 8 e (inl (omega arith))
          ∙ load-write m2 (at + 8 + 8) 8 len ll;
      bytes_at = read-write m3 (at + 8 + 16) bytes len e;
    }

module _ (b : Shared) (host : EdgeHost) where
  -- A call in the buffer reaches the host, which finds the data.
  dispatch_edgecall_syscall_lem :
      (s : CallState) (ptr size : ℕ)
      → Fits b
      → b.shared_start ≤ ptr
      → ptr < b.shared_start + b.shared_len
      → ptr + size ≤ b.shared_start + b.shared_len
      → (call : EdgeCall) × (dispatch_edgecall_syscall b host s ptr size
          ≡ host_runs b host (record s { call = call }))
        × (edge_call_args_ptr b call ≡ (some ptr, size))
        × (call.call_id ≡ edgecall_syscall)
  unfolding dispatch_edgecall_syscall
  dispatch_edgecall_syscall_lem s ptr size f l u e =
      let c = record s.call { call_id = edgecall_syscall } in
      let ((ok, found, id), _) = edge_call_args_ptr-setup_call b c ptr size f l u e in
      ((edge_call_setup_call b c ptr size).1, rw ok refl, found, id)

  pub data_ptr_lem : Fits b → 48 ≤ b.shared_len → edge_call_data_ptr b ≡ b.shared_start + 48
  unfolding edge_call_data_ptr
  data_ptr_lem f l = omega (arith, f, l)

  -- If the shared buffer ends below 2^64 and has room for the head of the call, the arguments and
  -- the data, and the descriptor has 32 bits, io_syscall_write runs the host, with the result of the
  -- host as its own. The host finds an EDGECALL_SYSCALL, and the arguments at the start of the data,
  -- with their size; there are the number 64, the descriptor, the length and the bytes of the
  -- application's buffer. The memory of the application is as it was before the host runs.
  pub io_syscall_write_lem :
      (s : CallState) (fd buf len : ℕ)
      → Fits b
      → 72 + len ≤ b.shared_len
      → fd < 2 ^ 32
      → (t : CallState) × (io_syscall_write b host s fd buf len ≡ host_runs b host t)
        × (edge_call_args_ptr b t.call ≡ (some (syscall_at b host), 24 + len))
        × (t.call.call_id ≡ edgecall_syscall)
        × Laid t.shared (syscall_at b host) 64 fd len (read s.user buf len)
        × (t.user ≡ s.user)
  unfolding io_syscall_write
  io_syscall_write_lem s fd buf len f room lf =
      let d = data_ptr_lem f (omega (arith, room)) in
      let t = copy_from_user (sized b host s 64 fd len) (buf_at b host) buf len in
      let valid : edge_call_check_ptr_valid b (buf_at b host) len ≡ 0 =
        (edge_call_check_ptr_valid_iff b (buf_at b host) len f (omega (arith, d, f, room))).1
          (omega (arith, d), omega (arith, d, room)) in
      let (call, runs, found, id) =
        dispatch_edgecall_syscall_lem t (syscall_at b host) (24 + len) f (omega (arith, d))
          (omega (arith, d, room)) (omega (arith, d, room)) in
      let size : 8 + (16 + len) % 2 ^ 64 ≡ 24 + len = omega (arith, f, room) in
      (
        record t { call = call },
        rw (valid, size) runs,
        found,
        id,
        Laid-write s.shared (syscall_at b host) 64 fd len (read s.user buf len) (omega arith)
            (omega (arith, lf)) (omega (arith, f, room)) (length-read s.user buf len),
        refl,
      )
