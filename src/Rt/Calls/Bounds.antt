-- ===== src/Rt/Calls/Bounds.antt =====
-- What io_syscall_read changes in the memory of the application, whatever the host does
-- (runtime/call/io_wrap.c).
use keystone_workspace.Base.{
  ℕ, ◌+◌, ◌^◌, ◌%◌, ◌≤◌, ◌<◌, ◌≡◌, ◌⊎◌, ◌==◌, not, inl, inr, Bool, true, false, ltb, if◌then◌else◌,
  ==_iff, arith, refl, ap, ◌∙◌,
}
use keystone_workspace.Sm.Measure.{read}
use keystone_workspace.Sm.Attest.{write}
use keystone_workspace.Edge.Shared.{Shared, edge_call_check_ptr_valid}
use keystone_workspace.Edge.Bounds.{Fits, edge_call_check_ptr_valid_iff}
use keystone_workspace.Rt.Calls.{
  CallState, EdgeHost, dispatch_edgecall_syscall, sized, buf_at, io_syscall_read, call_failed,
  copy_to_user, is_negative_int, host_runs, dispatched,
}
use keystone_workspace.Rt.Calls.Bytes.{Outside, Outside-fewer, length-read, write-Outside}

either :
    (c : Bool) (p q : ℕ × CallState) (mem : ℕ → ℕ)
    → p.1.user ≡ mem
    → q.1.user ≡ mem
    → (if c then p else q).1.user ≡ mem
either true p q mem l r = l
either false p q mem l r = r

module _ (b : Shared) (host : EdgeHost) where
  host_runs_user : (s : CallState) → (host_runs b host s).1.user ≡ s.user
  host_runs_user s = either _ _ _ s.user refl refl

  pub dispatch_edgecall_syscall_user :
      (s : CallState) (p n : ℕ) → (dispatch_edgecall_syscall b host s p n).1.user ≡ s.user
  unfolding dispatch_edgecall_syscall
  dispatch_edgecall_syscall_user s p n = either _ _ _ s.user refl (host_runs_user _)

  -- Either the application's memory is as it was, or the first bytes of its buffer, at most `len`,
  -- have become bytes that lie in the shared buffer.
  abbrev pub Effect : (ℕ → ℕ) → CallState → ℕ → ℕ → Type 0
  Effect user u buf len =
      (u.user ≡ user)
      ⊎ ((n : ℕ) × (n ≤ len)
          × (b.shared_start ≤ buf_at b host)
          × (buf_at b host + n ≤ b.shared_start + b.shared_len)
          × (u.user ≡ write user buf (read u.shared (buf_at b host) n)))

  abbrev finish : Bool → Bool → CallState → CallState → ℕ → ℕ → ℕ → ℕ × CallState
  finish valid negative t u ret buf len =
      if not valid
      then (call_failed, t)
      else if negative
      then (ret, u)
      else (ret, copy_to_user u buf (buf_at b host) (if ltb len ret then len else ret))

  Effect-read :
      (user : ℕ → ℕ) (fd buf len ret : ℕ) (valid negative : Bool) (t u : CallState)
      → t.user ≡ user
      → u.user ≡ user
      → (valid ≡ true
          → (b.shared_start ≤ buf_at b host)
            × (buf_at b host + len ≤ b.shared_start + b.shared_len))
      → Effect user (finish valid negative t u ret buf len).1 buf len
  Effect-read user fd buf len ret false negative t u same same' inside = inl same
  Effect-read user fd buf len ret true true t u same same' inside = inl same'
  Effect-read user fd buf len ret true false t u same same' inside =
      let (l, r) = inside refl in
      let n = if ltb len ret then len else ret in
      let few : n ≤ len = ground arith in
      inr (n, few, l, omega arith, ap (λ m. write m buf (read u.shared (buf_at b host) n)) same')

  Effect-Outside :
      (user : ℕ → ℕ) (u : CallState) (buf len x : ℕ)
      → Outside x buf len
      → Effect user u buf len
      → u.user x ≡ user x
  Effect-Outside user u buf len x o (inl same) = ap (λ m. m x) same
  Effect-Outside user u buf len x o (inr (n, few, l, r, e)) =
      let bytes = read u.shared (buf_at b host) n in
      ap (λ m. m x) e
      ∙ write-Outside user buf bytes x
          (Outside-fewer x buf len _ (rw (length-read u.shared (buf_at b host) n) few) o)

  -- Whatever the host does and returns, io_syscall_read leaves the application's memory as it was, or
  -- copies at most `len` bytes, which all lie in the shared buffer, to the start of the application's
  -- buffer; a byte outside the application's buffer is as it was. The shared buffer ends below 2^64,
  -- and the bytes behind the arguments have a 64-bit address.
  pub io_syscall_read_lem :
      (s : CallState) (fd buf len x : ℕ)
      → Fits b
      → buf_at b host < 2 ^ 64
      → Outside x buf len
      → Effect s.user (io_syscall_read b host s fd buf len).1 buf len
        × ((io_syscall_read b host s fd buf len).1.user x ≡ s.user x)
  unfolding io_syscall_read
  io_syscall_read_lem s fd buf len x f w o =
      let t = sized b host s 63 fd len in
      let (ret, u) = dispatched b host t ((16 + len) % 2 ^ 64) in
      let effect =
        Effect-read s.user fd buf len ret (edge_call_check_ptr_valid b (buf_at b host) len == 0)
          (is_negative_int ret) t u refl (dispatch_edgecall_syscall_user t _ _)
          (λ v. (edge_call_check_ptr_valid_iff b (buf_at b host) len f w).0 ((==_iff _ 0).0 v)) in
      (effect, Effect-Outside s.user (io_syscall_read b host s fd buf len).1 buf len x o effect)
