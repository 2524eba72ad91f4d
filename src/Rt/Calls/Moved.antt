-- ===== src/Rt/Calls/Moved.antt =====
-- The shared buffer at the runtime's addresses and at those of the host (runtime/sys/boot.c maps it at
-- EYRIE_UNTRUSTED_START, the host at an address of its own).
use keystone_workspace.Base.{
  ℕ, zero, suc, ◌+◌, ◌-◌, ◌≤◌, ◌<◌, ◌≡◌, ◌&&◌, ltb, leb, if◌then◌else◌, List, some, arith, refl,
  sym, ap, ◌∙◌, true,
}
use keystone_workspace.Sm.Measure.{read}
use keystone_workspace.Edge.Shared.{
  Shared, EdgeCall, edge_call_args_ptr, edge_call_ret_ptr, edge_call_get_ptr_from_offset,
}
use keystone_workspace.Edge.Bounds.{Fits, edge_call_get_ptr_from_offset_iff}
use keystone_workspace.Rt.Calls.{number}
use keystone_workspace.Rt.Calls.Sent.{Laid}

-- An address in the one buffer is the buffer's part of a memory at the other; any other address has
-- what `rest` has there.
abbrev pub moved : Shared → Shared → (ℕ → ℕ) → (ℕ → ℕ) → ℕ → ℕ
moved from to mem rest x =
    if leb to.shared_start x && ltb x (to.shared_start + to.shared_len)
    then mem (x - to.shared_start + from.shared_start)
    else rest x

read_ext :
    (f g : ℕ → ℕ) (a c n : ℕ) → ((i : ℕ) → i < n → f (a + i) ≡ g (c + i)) → read f a n ≡ read g c n
unfolding read
read_ext f g a c zero e = refl
read_ext f g a c (suc n) e =
    let first : f a ≡ g c =
      let za : a + 0 ≡ a = omega arith in
      let zc : c + 0 ≡ c = omega arith in sym (ap f za) ∙ e 0 (omega arith) ∙ ap g zc in
    let rest = read_ext f g (a + 1) (c + 1) n (λ i l.
      let pa : a + 1 + i ≡ a + (1 + i) = omega arith in
      let pc : c + (1 + i) ≡ c + 1 + i = omega arith in
      ap f pa ∙ e (1 + i) (omega arith) ∙ ap g pc) in
    rw (first, rest) refl

module _ (from to : Shared) where
  moved_at :
      (mem rest : ℕ → ℕ) (k : ℕ)
      → k < to.shared_len
      → moved from to mem rest (to.shared_start + k) ≡ mem (from.shared_start + k)
  moved_at mem rest k l =
      let low : leb to.shared_start (to.shared_start + k) ≡ true = ground arith in
      let high : ltb (to.shared_start + k) (to.shared_start + to.shared_len) ≡ true =
        ground arith in
      let place : to.shared_start + k - to.shared_start + from.shared_start
          ≡ from.shared_start + k =
        omega arith in
      rw (low, high) (ap mem place)

  -- Bytes of the buffer
  pub read-moved :
      (mem rest : ℕ → ℕ) (x y k n : ℕ)
      → x ≡ to.shared_start + k
      → y ≡ from.shared_start + k
      → k + n ≤ to.shared_len
      → read (moved from to mem rest) x n ≡ read mem y n
  read-moved mem rest x y k n ex ey l = read_ext (moved from to mem rest) mem x y n (λ i li.
      let px : x + i ≡ to.shared_start + (k + i) = omega arith in
      let py : from.shared_start + (k + i) ≡ y + i = omega arith in
      ap (moved from to mem rest) px ∙ moved_at mem rest (k + i) (omega arith) ∙ ap mem py)

  pub Laid-moved :
      (mem rest : ℕ → ℕ) (x y num fd len : ℕ) (bytes : List ℕ)
      → x ≡ to.shared_start + 48
      → y ≡ from.shared_start + 48
      → 72 + len ≤ to.shared_len
      → Laid mem y num fd len bytes
      → Laid (moved from to mem rest) x num fd len bytes
  Laid-moved mem rest x y num fd len bytes ex ey l laid = record {
    num_at = ap number (read-moved mem rest x y 48 8 ex ey (omega arith)) ∙ laid.num_at;
    fd_at =
        ap number
          (read-moved mem rest (x + 8) (y + 8) 56 4 (omega arith) (omega arith) (omega arith))
        ∙ laid.fd_at;
    len_at =
        ap number (
          read-moved mem rest (x + 8 + 8) (y + 8 + 8) 64 8 (omega arith) (omega arith)
            (omega arith))
        ∙ laid.len_at;
    bytes_at =
        read-moved mem rest (x + 8 + 16) (y + 8 + 16) 72 len (omega arith) (omega arith)
          (omega arith)
        ∙ laid.bytes_at;
  }

  -- An offset that gives a pointer into the one gives the pointer at the same place of the other.
  ptr_moved :
      (offset n x y : ℕ)
      → Fits from
      → Fits to
      → to.shared_len ≡ from.shared_len
      → x + from.shared_start ≡ y + to.shared_start
      → edge_call_get_ptr_from_offset from offset n ≡ some y
      → edge_call_get_ptr_from_offset to offset n ≡ some x
  ptr_moved offset n x y f g same place e =
      let (l, u, p) = (edge_call_get_ptr_from_offset_iff from offset n y f).0 e in
      (edge_call_get_ptr_from_offset_iff to offset n x g).1
        (omega (arith, l, same), omega (arith, u, same), omega (arith, p, place))

  pub args_ptr_moved :
      (c : EdgeCall) (n x y : ℕ)
      → Fits from
      → Fits to
      → to.shared_len ≡ from.shared_len
      → x + from.shared_start ≡ y + to.shared_start
      → edge_call_args_ptr from c ≡ (some y, n)
      → edge_call_args_ptr to c ≡ (some x, n)
  unfolding edge_call_args_ptr
  args_ptr_moved c n x y f g same place e =
      let found =
        ptr_moved c.call_arg_offset c.call_arg_size x y f g same place (ap (λ r. r.0) e) in
      let size : c.call_arg_size ≡ n = ap (λ r. r.1) e in
      ap (λ o. (o, c.call_arg_size)) found ∙ ap (λ k. (some x, k)) size

  pub ret_ptr_moved :
      (c : EdgeCall) (n x y : ℕ)
      → Fits from
      → Fits to
      → to.shared_len ≡ from.shared_len
      → x + from.shared_start ≡ y + to.shared_start
      → edge_call_ret_ptr from c ≡ (some y, n)
      → edge_call_ret_ptr to c ≡ (some x, n)
  unfolding edge_call_ret_ptr
  ret_ptr_moved c n x y f g same place e =
      let found =
        ptr_moved c.call_ret_offset c.call_ret_size x y f g same place (ap (λ r. r.0) e) in
      let size : c.call_ret_size ≡ n = ap (λ r. r.1) e in
      ap (λ o. (o, c.call_ret_size)) found ∙ ap (λ k. (some x, k)) size
