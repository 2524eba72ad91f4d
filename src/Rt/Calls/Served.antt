-- ===== src/Rt/Calls/Served.antt =====
-- A write of the application that the host serves with incoming_syscall
-- (runtime/call/io_wrap.c, sdk/src/edge/edge_syscall.c).
use keystone_workspace.Base.{
  ℕ, ◌+◌, ◌^◌, ◌≤◌, ◌<◌, ◌≡◌, ltb, if◌then◌else◌, List, [], ◌∷◌, Option, none, some, arith, refl,
  sym, ap, ◌∙◌,
}
use keystone_workspace.Sm.Measure.{read, le_bytes}
use keystone_workspace.Sm.Attest.{write}
use keystone_workspace.Edge.Shared.{
  Shared, EdgeCall, edge_call_args_ptr, edge_call_data_ptr, edge_call_ret_ptr, edge_call_setup_ret,
}
use keystone_workspace.Edge.Bounds.{Fits, edge_call_args_ptr-setup_call}
use keystone_workspace.Edge.Syscall.{
  Posix, PosixCall, sys_write, file_call, finish_syscall, incoming_syscall, run_syscall,
  syscall_with,
}
use keystone_workspace.Rt.Calls.{
  EdgeHost, CallState, load, number, host_result, host_runs, call_failed, call_status_ok,
  io_syscall_write,
}
use keystone_workspace.Rt.Calls.Moved.{moved, read-moved, Laid-moved, args_ptr_moved, ret_ptr_moved}
use keystone_workspace.Rt.Calls.Sent.{Laid, load-write, io_syscall_write_lem, data_ptr_lem}

-- The host that serves the calls with incoming_syscall: `b` is the buffer at the runtime's addresses,
-- `hb` at the host's; `own` is the rest of the host's memory.
abbrev pub serving : Posix → (ℕ → ℕ) → Shared → Shared → EdgeHost
serving posix own b hb shared call =
    let (c, mem) = incoming_syscall posix hb call (moved b hb shared own) in
    (0, moved hb b mem shared, c)

module _ (posix : Posix) (b : Shared) where
  -- The call behind a result, with the result at the start of the data
  abbrev returned : EdgeCall → EdgeCall
  returned c = (edge_call_setup_ret b c (edge_call_data_ptr b) 8).1

  abbrev answered : ℕ → (ℕ → ℕ) → (ℕ → ℕ)
  answered ret mem = write mem (edge_call_data_ptr b) (le_bytes 8 ret)

  setup_ret_data :
      (host : EdgeHost) (c : EdgeCall)
      → Fits b
      → 56 ≤ b.shared_len
      → ((edge_call_setup_ret b c (edge_call_data_ptr b) 8).0 ≡ 0)
        × (edge_call_ret_ptr b (returned c) ≡ (some (edge_call_data_ptr b), 8))
  setup_ret_data host c f l =
      let d = data_ptr_lem b host f (omega (arith, l)) in
      let (_, (good, found, _)) =
        edge_call_args_ptr-setup_call b c (edge_call_data_ptr b) 8 f (omega (arith, d))
          (omega (arith, d, l)) (omega (arith, d, l)) in
      (good, found)

  finish_syscall_lem :
      (c : EdgeCall) (ret : ℕ) (mem : ℕ → ℕ)
      → (edge_call_setup_ret b c (edge_call_data_ptr b) 8).0 ≡ 0
      → finish_syscall posix b c ret mem ≡ (returned c, answered ret mem)
  unfolding finish_syscall
  finish_syscall_lem c ret mem good = rw good refl

  returned_status : (c : EdgeCall) → (returned c).call_status ≡ c.call_status
  unfolding edge_call_setup_ret
  returned_status c = refl

  file_call_write :
      (mem : ℕ → ℕ) (num d fd len : ℕ)
      → num ≡ 64
      → load mem d 4 ≡ fd
      → load mem (d + 8) 8 ≡ len
      → file_call mem num d ≡ some (sys_write, fd ∷ (d + 16) ∷ len ∷ [])
  unfolding file_call
  file_call_write mem num d fd len n i l = rw (n, i, l) refl

  incoming_syscall_write :
      (c : EdgeCall) (mem : ℕ → ℕ) (p n fd len : ℕ) (bytes : List ℕ)
      → edge_call_args_ptr b c ≡ (some p, n)
      → Laid mem p 64 fd len bytes
      → incoming_syscall posix b c mem
        ≡ run_syscall posix b
            (record c { call_status = call_status_ok })
            mem
            (some (sys_write, fd ∷ (p + 8 + 16) ∷ len ∷ []))
  unfolding incoming_syscall
  incoming_syscall_write c mem p n fd len bytes found laid =
      ap (syscall_with posix b c mem) (ap (λ x. x.0) found)
      ∙ ap (run_syscall posix b (record c { call_status = call_status_ok }) mem)
          (file_call_write mem (load mem p 8) (p + 8) fd len laid.num_at laid.fd_at laid.len_at)

-- The result that the host returned at a pointer, with its size
abbrev picked : (ℕ → ℕ) → Option ℕ × ℕ → ℕ
picked mem (none, size) = call_failed
picked mem (some p, size) = if ltb size 8 then call_failed else load mem p 8

host_result-picked :
    (b : Shared) (host : EdgeHost) (s : CallState)
    → host_result b host s ≡ picked s.shared (edge_call_ret_ptr b s.call)
unfolding host_result
host_result-picked b host s =
    elim (edge_call_ret_ptr b s.call).0
      as (λ o.
        elim o [
          | none ↦ call_failed
          | some p ↦ if ltb s.call.call_ret_size 8 then call_failed else load s.shared p 8
        ]
        ≡ picked s.shared (o, s.call.call_ret_size)) [ none ↦ refl | some p ↦ refl ]

module _ (posix : Posix) (own : ℕ → ℕ) (b hb : Shared) where
  abbrev host : EdgeHost
  host = serving posix own b hb

  -- The runtime takes the result that finish_syscall left.
  host_runs-finish_syscall :
      (t : CallState) (c : EdgeCall) (ret : ℕ) (mem : ℕ → ℕ)
      → Fits b
      → Fits hb
      → b.shared_len ≡ hb.shared_len
      → 56 ≤ b.shared_len
      → ret < 2 ^ 64
      → c.call_status ≡ call_status_ok
      → incoming_syscall posix hb t.call (moved b hb t.shared own)
        ≡ finish_syscall posix hb c ret mem
      → (host_runs b host t).0 ≡ ret
  host_runs-finish_syscall t c ret mem f g same l w ok e =
      let (good, found) = setup_ret_data posix hb host c g (omega (arith, l, same)) in
      let all = e ∙ finish_syscall_lem posix hb c ret mem good in
      let status : (returned posix hb c).call_status ≡ call_status_ok =
        returned_status posix hb c ∙ ok in
      let after = moved hb b (answered posix hb ret mem) t.shared in
      let u : CallState = record { shared = after; call = returned posix hb c; user = t.user } in
      let d = data_ptr_lem hb host g (omega (arith, l, same)) in
      let here =
        ret_ptr_moved hb b (returned posix hb c) 8 (b.shared_start + 48) (edge_call_data_ptr hb) g f
          same (omega (arith, d)) found in
      let back : load after (b.shared_start + 48) 8 ≡ ret =
        ap number (
          read-moved hb b (answered posix hb ret mem) t.shared (b.shared_start + 48)
            (edge_call_data_ptr hb) 48 8 refl d (omega (arith, l)))
        ∙ load-write mem (edge_call_data_ptr hb) 8 ret (omega (arith, w)) in
      let value : host_result b host u ≡ ret =
        host_result-picked b host u ∙ ap (picked u.shared) here ∙ back in
      rw (all, status) value

  -- If the host serves the calls with incoming_syscall, and its C functions have 64-bit results,
  -- io_syscall_write gives the result of the host's write() for the same descriptor and length and
  -- the address of the data behind the arguments in the host's own mapping of the shared buffer, on
  -- a memory of the host that has there the bytes of the application's buffer. The runtime and the
  -- host may have the shared buffer at different addresses; it ends below 2^64 at both and has room
  -- for the head of the call, the arguments and the data, and the descriptor has 32 bits.
  pub io_syscall_write-incoming_syscall :
      (s : CallState) (fd buf len : ℕ)
      → ((c : PosixCall) (args : List ℕ) (mem : ℕ → ℕ) → (posix c args mem).0 < 2 ^ 64)
      → Fits b
      → Fits hb
      → b.shared_len ≡ hb.shared_len
      → 72 + len ≤ b.shared_len
      → fd < 2 ^ 32
      → (mem : ℕ → ℕ) × (read mem (hb.shared_start + 72) len ≡ read s.user buf len)
        × ((io_syscall_write b host s fd buf len).0
            ≡ (posix sys_write (fd ∷ (hb.shared_start + 72) ∷ len ∷ []) mem).0)
  io_syscall_write-incoming_syscall s fd buf len words f g same room lf =
      let (t, runs, found, _, laid, _) = io_syscall_write_lem b host s fd buf len f room lf in
      let d = data_ptr_lem b host f (omega (arith, room)) in
      let p = hb.shared_start + 48 in
      let there =
        args_ptr_moved b hb t.call (24 + len) p (edge_call_data_ptr b) f g (sym same)
          (omega (arith, d)) found in
      let laid' =
        Laid-moved b hb t.shared own p (edge_call_data_ptr b) 64 fd len (read s.user buf len) refl d
          (omega (arith, room, same)) laid in
      let place : p + 8 + 16 ≡ hb.shared_start + 72 = omega arith in
      let mem0 = moved b hb t.shared own in
      let (ret, mem) = posix sys_write (fd ∷ (hb.shared_start + 72) ∷ len ∷ []) mem0 in
      let served =
        incoming_syscall_write posix hb t.call mem0 p (24 + len) fd len (read s.user buf len) there
          laid'
        ∙ ap
            (λ a.
              run_syscall posix hb (record t.call { call_status = call_status_ok }) mem0
                (some (sys_write, fd ∷ a ∷ len ∷ [])))
            place in
      (
        mem0,
        ap (λ a. read mem0 a len) (sym place) ∙ laid'.bytes_at,
        ap (λ r. r.0) runs
            ∙ host_runs-finish_syscall t (record t.call { call_status = call_status_ok }) ret mem f
                g same (omega (arith, room)) (words _ _ _) refl served,
      )
