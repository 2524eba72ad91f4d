-- ===== src/Edge/Syscall.antt =====
-- The host's side of the system calls of an enclave (sdk/src/edge/edge_syscall.c, with the structs of
-- sdk/include/edge/edge_syscall.h). The functions of the host's C library are a parameter: they take
-- their arguments, pointers as addresses in the memory, and change the memory.
use keystone_workspace.Base.{ℕ, ◌+◌, ◌==◌, not, if◌then◌else◌, Option, none, some, List, [], ◌∷◌}
use keystone_workspace.Sm.Measure.{le_bytes}
use keystone_workspace.Sm.Attest.{write}
use keystone_workspace.Edge.Shared.{
  Shared, EdgeCall, edge_call_args_ptr, edge_call_data_ptr, edge_call_setup_ret,
}
use keystone_workspace.Rt.Calls.{load, call_status_ok}

pub data PosixCall : Type 0 where
  sys_openat : PosixCall
  sys_unlinkat : PosixCall
  sys_ftruncate : PosixCall
  sys_fstatat : PosixCall
  sys_fstat : PosixCall
  sys_getcwd : PosixCall
  sys_write : PosixCall
  sys_read : PosixCall
  sys_sync : PosixCall
  sys_fsync : PosixCall
  sys_close : PosixCall
  sys_lseek : PosixCall
  sys_pipe : PosixCall
  sys_epoll_create : PosixCall
  sys_chdir : PosixCall
  sys_epoll_ctl : PosixCall
  sys_epoll_wait : PosixCall
  sys_getpeername : PosixCall
  sys_getsockname : PosixCall
  sys_renameat : PosixCall
  sys_umask : PosixCall
  sys_socket : PosixCall
  sys_setsockopt : PosixCall
  sys_connect : PosixCall
  sys_bind : PosixCall
  sys_listen : PosixCall
  sys_accept : PosixCall
  sys_recvfrom : PosixCall
  sys_sendto : PosixCall
  sys_sendfile : PosixCall
  sys_fcntl : PosixCall
  sys_getuid : PosixCall
  sys_pselect : PosixCall

-- The result, sign-extended to 64 bits, and the memory behind the call
abbrev pub Posix : Type 0
Posix = PosixCall → List ℕ → (ℕ → ℕ) → ℕ × (ℕ → ℕ)

-- CALL_STATUS_SYSCALL_FAILED
abbrev pub call_status_syscall_failed : ℕ
call_status_syscall_failed = 5

-- NULL if the flag at `flag` is set
abbrev pub unless_null : (ℕ → ℕ) → ℕ → ℕ → ℕ
unless_null mem flag a = if load mem flag 4 == 0 then a else 0

-- The switch on the number of the call, with the arguments at `d`: first the cases behind umask
unfoldable pub net_call : (ℕ → ℕ) → ℕ → ℕ → Option (PosixCall × List ℕ)
net_call mem num d =
    if num == 198
    then some (sys_socket, load mem d 4 ∷ load mem (d + 4) 4 ∷ load mem (d + 8) 4 ∷ [])
    else if num == 208
    then some (
      sys_setsockopt,
      load mem d 4 ∷ load mem (d + 4) 4 ∷ load mem (d + 8) 4 ∷ (d + 16) ∷ load mem (d + 12) 4 ∷ [],
    )
    else if num == 203
    then some (sys_connect, load mem d 4 ∷ (d + 8) ∷ load mem (d + 136) 4 ∷ [])
    else if num == 200
    then some (sys_bind, load mem d 4 ∷ (d + 8) ∷ load mem (d + 136) 4 ∷ [])
    else if num == 201
    then some (sys_listen, load mem d 4 ∷ load mem (d + 4) 4 ∷ [])
    else if num == 202
    then some (sys_accept, load mem d 4 ∷ (d + 8) ∷ (d + 136) ∷ [])
    else if num == 207
    then some (
      sys_recvfrom,
      load mem d 4
          ∷ (d + 44)
          ∷ load mem (d + 8) 8
          ∷ load mem (d + 16) 4
          ∷ unless_null mem (d + 20) (d + 24)
          ∷ unless_null mem (d + 20) (d + 40)
          ∷ [],
    )
    else if num == 206
    then some (
      sys_sendto,
      load mem d 4
          ∷ (d + 44)
          ∷ load mem (d + 8) 8
          ∷ load mem (d + 16) 4
          ∷ unless_null mem (d + 20) (d + 24)
          ∷ unless_null mem (d + 20) (load mem (d + 40) 4)
          ∷ [],
    )
    else if num == 71
    then some
        (sys_sendfile, load mem d 4 ∷ load mem (d + 8) 4 ∷ (d + 24) ∷ load mem (d + 32) 8 ∷ [])
    else if num == 25
    then some (
      sys_fcntl,
      load mem d 4
          ∷ load mem (d + 4) 4
          ∷ (if load mem (d + 8) 4 == 0 then load mem (d + 16) 8 else d + 16)
          ∷ [],
    )
    else if num == 174
    then some (sys_getuid, [])
    else if num == 72
    then some (
      sys_pselect,
      load mem d 4
          ∷ unless_null mem (d + 4) (d + 24)
          ∷ unless_null mem (d + 8) (d + 152)
          ∷ unless_null mem (d + 12) (d + 280)
          ∷ unless_null mem (d + 16) (d + 408)
          ∷ unless_null mem (d + 20) (d + 424)
          ∷ [],
    )
    else none

unfoldable pub file_call : (ℕ → ℕ) → ℕ → ℕ → Option (PosixCall × List ℕ)
unfolding net_call
file_call mem num d =
    if num == 56
    then some (sys_openat, load mem d 4 ∷ (d + 12) ∷ load mem (d + 4) 4 ∷ load mem (d + 8) 4 ∷ [])
    else if num == 35
    then some (sys_unlinkat, load mem d 4 ∷ (d + 12) ∷ load mem (d + 4) 4 ∷ [])
    else if num == 46
    then some (sys_ftruncate, load mem d 4 ∷ load mem (d + 8) 8 ∷ [])
    else if num == 79
    then some (sys_fstatat, load mem d 4 ∷ (d + 136) ∷ (d + 8) ∷ load mem (d + 4) 4 ∷ [])
    else if num == 80
    then some (sys_fstat, load mem d 4 ∷ (d + 8) ∷ [])
    else if num == 17
    then some (sys_getcwd, (d + 8) ∷ load mem d 8 ∷ [])
    else if num == 64
    then some (sys_write, load mem d 4 ∷ (d + 16) ∷ load mem (d + 8) 8 ∷ [])
    else if num == 63
    then some (sys_read, load mem d 4 ∷ (d + 16) ∷ load mem (d + 8) 8 ∷ [])
    else if num == 81
    then some (sys_sync, [])
    else if num == 82
    then some (sys_fsync, load mem d 4 ∷ [])
    else if num == 57
    then some (sys_close, load mem d 4 ∷ [])
    else if num == 62
    then some (sys_lseek, load mem d 4 ∷ load mem (d + 8) 8 ∷ load mem (d + 16) 4 ∷ [])
    else if num == 59
    then some (sys_pipe, d ∷ [])
    else if num == 20
    then some (sys_epoll_create, load mem d 4 ∷ [])
    else if num == 49
    then some (sys_chdir, d ∷ [])
    else if num == 21
    then some
        (sys_epoll_ctl, load mem d 4 ∷ load mem (d + 4) 4 ∷ load mem (d + 8) 4 ∷ (d + 16) ∷ [])
    else if num == 22
    then some
        (sys_epoll_wait, load mem d 4 ∷ (d + 8) ∷ load mem (d + 24) 4 ∷ load mem (d + 28) 4 ∷ [])
    else if num == 205
    then some (sys_getpeername, load mem d 4 ∷ (d + 8) ∷ (d + 136) ∷ [])
    else if num == 204
    then some (sys_getsockname, load mem d 4 ∷ (d + 4) ∷ (d + 20) ∷ [])
    else if num == 276
    then some (sys_renameat, load mem d 4 ∷ (d + 4) ∷ load mem (d + 132) 4 ∷ (d + 136) ∷ [])
    else if num == 166
    then some (sys_umask, load mem d 4 ∷ [])
    else net_call mem num d

-- sync() has no result.
abbrev pub result : PosixCall → ℕ → ℕ
result sys_sync ret = 0
result f ret = ret

module _ (posix : Posix) (b : Shared) where
  abbrev pub syscall_error : EdgeCall → (ℕ → ℕ) → EdgeCall × (ℕ → ℕ)
  syscall_error c mem = (record c { call_status = call_status_syscall_failed }, mem)

  -- The result goes to the start of the data.
  unfoldable pub finish_syscall : EdgeCall → ℕ → (ℕ → ℕ) → EdgeCall × (ℕ → ℕ)
  unfolding edge_call_data_ptr edge_call_setup_ret
  finish_syscall c ret mem =
      let mem1 = write mem (edge_call_data_ptr b) (le_bytes 8 ret) in
      let (code, c1) = edge_call_setup_ret b c (edge_call_data_ptr b) 8 in
      if not (code == 0) then syscall_error c1 mem1 else (c1, mem1)

  abbrev pub run_syscall : EdgeCall → (ℕ → ℕ) → Option (PosixCall × List ℕ) → EdgeCall × (ℕ → ℕ)
  run_syscall c mem none = syscall_error c mem
  run_syscall c mem (some (f, args)) =
      let (ret, mem1) = posix f args mem in finish_syscall c (result f ret) mem1

  abbrev pub syscall_with : EdgeCall → (ℕ → ℕ) → Option ℕ → EdgeCall × (ℕ → ℕ)
  syscall_with c mem none = syscall_error c mem
  syscall_with c mem (some syscall_info) =
      run_syscall (record c { call_status = call_status_ok }) mem
        (file_call mem (load mem syscall_info 8) (syscall_info + 8))

  unfoldable pub incoming_syscall : EdgeCall → (ℕ → ℕ) → EdgeCall × (ℕ → ℕ)
  unfolding edge_call_args_ptr file_call finish_syscall
  incoming_syscall c mem = syscall_with c mem (edge_call_args_ptr b c).0
