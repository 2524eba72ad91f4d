-- ===== src/Edge/Dispatch.antt =====
-- The table of edge call handlers (sdk/src/edge/edge_dispatch.c), built with IO_SYSCALL_WRAPPING. A
-- handler works on the call, on the memory, and on the rest of the host's state, `S`.
use keystone_workspace.Base.{
  ℕ, ◌<◌, ◌≡◌, ◌↔◌, ltb, ◌==◌, if◌then◌else◌, Option, none, some, arith, update, update_self,
  update_ne,
}
use keystone_workspace.Edge.Shared.{Shared, EdgeCall}
use keystone_workspace.Edge.Syscall.{Posix, incoming_syscall}
use keystone_workspace.Rt.Calls.{edgecall_syscall}

abbrev pub max_edge_call : ℕ
max_edge_call = 10

abbrev pub call_status_bad_call_id : ℕ
call_status_bad_call_id = 1

-- -1 as an int
abbrev pub minus_one : ℕ
minus_one = 0xffff_ffff

module _ (S : Type 0) where
  abbrev pub HostState : Type 0
  HostState = (S × (ℕ → ℕ)) × EdgeCall

  abbrev pub Handler : Type 0
  Handler = HostState → HostState

  -- edge_call_table; the array has the entries below MAX_EDGE_CALL.
  abbrev pub Table : Type 0
  Table = ℕ → Option Handler

  -- The end of a call: it returns, or it reads or writes behind the table.
  pub data Access (A : Type 0) : Type 0 where
    inside : A → Access A
    behind : Access A

  unfoldable pub register_call : Table → ℕ → Handler → Access (ℕ × Table)
  register_call t call_id func =
      if ltb max_edge_call call_id
      then inside (minus_one, t)
      else if ltb call_id max_edge_call
      then inside (0, update t call_id (some func))
      else behind

  abbrev pub bad_call : HostState → HostState
  bad_call (s, c) = (s, record c { call_status = call_status_bad_call_id })

  abbrev pub call_entry : Option Handler → HostState → HostState
  call_entry none sc = bad_call sc
  call_entry (some func) sc = func sc

  abbrev pub syscall_handler : Posix → Shared → Handler
  syscall_handler posix b ((s, mem), c) =
      let (c1, mem1) = incoming_syscall posix b c mem in ((s, mem1), c1)

  unfoldable pub incoming_call_dispatch : Posix → Shared → Table → HostState → Access HostState
  unfolding incoming_syscall
  incoming_call_dispatch posix b t sc =
      if sc.1.call_id == edgecall_syscall
      then inside (syscall_handler posix b sc)
      else if ltb max_edge_call sc.1.call_id
      then inside (bad_call sc)
      else if ltb sc.1.call_id max_edge_call
      then inside (call_entry (t sc.1.call_id) sc)
      else behind

  -- After a handler has been registered under an id below MAX_EDGE_CALL, a call with that id runs
  -- it, and a call with any other id ends as it did before.
  pub dispatch-register :
      (posix : Posix) (b : Shared) (t t' : Table) (call_id : ℕ) (func : Handler) (sc : HostState)
      → call_id < max_edge_call
      → register_call t call_id func ≡ inside (0, t')
      → incoming_call_dispatch posix b t' sc ≡ (
          if call_id == sc.1.call_id then inside (func sc) else incoming_call_dispatch posix b t sc)
  unfolding register_call incoming_call_dispatch
  dispatch-register posix b t t' call_id func sc l e =
      let e' : t' ≡ update t call_id (some func) = ground (arith, e) in
      rw e' (
        ground
          (arith, update_self t call_id (some func), update_ne t call_id sc.1.call_id (some func)))

  -- incoming_call_dispatch reads behind the table exactly for the id MAX_EDGE_CALL, which its test
  -- lets through.
  pub dispatch_behind :
      (posix : Posix) (b : Shared) (t : Table) (sc : HostState)
      → (incoming_call_dispatch posix b t sc ≡ behind) ↔ (sc.1.call_id ≡ max_edge_call)
  unfolding incoming_call_dispatch
  dispatch_behind posix b t sc = (λ h. ground arith, λ h. ground arith)
