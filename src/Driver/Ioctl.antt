-- ===== src/Driver/Ioctl.antt =====
-- The ioctls (linux-keystone-driver/keystone-ioctl.c). Each takes the copy of the user's argument
-- and gives it back as it is copied to the user.
use keystone_workspace.Base.{
  ℕ, ◌%◌, ◌^◌, Bool, false, not, ltb, ◌==◌, if◌then◌else◌, Option, none, some,
}
use keystone_workspace.Base.Outcome.{Outcome, ret, hang, ◌>>=◌}
use keystone_workspace.Driver.State.{
  Code, ok, enomem, einval, enosys, efault, Epm, Utm, KernelEnclave, CreateArg, RunArg, SbiCreate,
  Host, Monitor, Kernel,
}
use keystone_workspace.Driver.Pages.{utm_init}
use keystone_workspace.Driver.Enclaves.{
  deref, put_enclave, driver_create_enclave, driver_destroy_enclave, enclave_idr_alloc,
  enclave_idr_remove, get_enclave_by_id,
}

-- A pointer that must not be NULL
abbrev pub deref_epm : Option Epm → Outcome Epm
deref_epm none = hang
deref_epm (some epm) = ret epm

module _ {M : Type 0} (k : Kernel M) (sm : Monitor M) where
  -- keystone_create_enclave with the enclave, or NULL
  unfoldable pub create_at : CreateArg → ℕ × Host M → Outcome (Code × CreateArg × Host M)
  unfolding enclave_idr_alloc
  create_at a (p, h) =
      if p == 0
      then ret (enomem, a, h)
      else deref (h.heap p) >>= λ e. deref_epm e.epm >>= λ epm.
          let (ueid, h1) = enclave_idr_alloc k h p in
          ret (
            ok,
            record a { epm_paddr = epm.phys; epm_size = epm.size; eid = ueid },
            record h1 { private_data = ueid },
          )

  unfoldable pub keystone_create_enclave : CreateArg → Host M → Outcome (Code × CreateArg × Host M)
  unfolding driver_create_enclave create_at
  keystone_create_enclave a h = driver_create_enclave k h a.min_pages >>= create_at a

  abbrev pub utm_pregion : Option Utm → ℕ × ℕ
  utm_pregion none = (0, 0)
  utm_pregion (some utm) = (k.phys_of utm.ptr, utm.size)

  abbrev pub create_args : CreateArg → Epm → ℕ × ℕ → SbiCreate
  create_args a epm (utm_paddr, utm_size) = record {
    epm_paddr = epm.phys;
    epm_size = epm.size;
    utm_paddr = utm_paddr;
    utm_size = utm_size;
    runtime_paddr = a.runtime_paddr;
    user_paddr = a.user_paddr;
    free_paddr = a.free_paddr;
    free_requested = a.free_requested;
  }

  -- keystone_finalize_enclave with the monitor's answer
  unfoldable pub finalize_answer :
      ℕ → KernelEnclave → Host M → (ℕ × ℕ) × M → Outcome (Code × Host M)
  unfolding driver_destroy_enclave
  finalize_answer p e h ((error, value), m) =
      let h1 = record h { monitor = m } in
      if error == 0
      then ret (ok, put_enclave k h1 p (record e { eid = value }))
      else driver_destroy_enclave k h1 p >>= λ r. ret (einval, r.1)

  -- keystone_finalize_enclave with the enclave and its epm, which must not be NULL
  abbrev pub finalize_epm :
      CreateArg → ℕ → KernelEnclave → Host M → Option Epm → Outcome (Code × Host M)
  finalize_epm a p e h none = hang
  finalize_epm a p e h (some epm) =
      let e1 = record e { is_init = false } in
      finalize_answer p e1 (put_enclave k h p e1)
        (sm.create_call (create_args a epm (utm_pregion e.utm)) h.monitor)

  abbrev pub finalize_at : CreateArg → Option ℕ → Host M → Outcome (Code × Host M)
  finalize_at a none h = ret (einval, h)
  finalize_at a (some p) h = deref (h.heap p) >>= λ e. finalize_epm a p e h e.epm

  unfoldable pub keystone_finalize_enclave : CreateArg → Host M → Outcome (Code × Host M)
  unfolding finalize_answer
  keystone_finalize_enclave a h = finalize_at a (get_enclave_by_id k h a.eid) h

  abbrev pub ran : RunArg → Host M → (ℕ × ℕ) × M → Outcome (Code × RunArg × Host M)
  ran a h ((error, value), m) =
      ret (ok, record a { error = error; value = value }, record h { monitor = m })

  -- The test `enclave->eid < 0` is on an unsigned long, and never holds.
  abbrev pub run_at :
      (ℕ → M → (ℕ × ℕ) × M) → RunArg → Option ℕ → Host M → Outcome (Code × RunArg × Host M)
  run_at call a none h = ret (einval, a, h)
  run_at call a (some p) h = deref (h.heap p) >>= λ e.
      if ltb e.eid 0 then ret (einval, a, h) else ran a h (call e.eid h.monitor)

  unfoldable pub keystone_run_enclave : RunArg → Host M → Outcome (Code × RunArg × Host M)
  keystone_run_enclave a h = run_at sm.run_call a (get_enclave_by_id k h a.eid) h

  unfoldable pub keystone_resume_enclave : RunArg → Host M → Outcome (Code × RunArg × Host M)
  keystone_resume_enclave a h = run_at sm.resume_call a (get_enclave_by_id k h a.eid) h

  abbrev pub utm_done :
      CreateArg → ℕ → KernelEnclave → Code × Utm × Host M → Outcome (Code × CreateArg × Host M)
  utm_done a p e (code, utm, h) = ret (
    code,
    record a { utm_paddr = k.phys_of utm.ptr },
    put_enclave k h p (record e { utm = some utm }),
  )

  abbrev pub utm_at :
      CreateArg → ℕ → KernelEnclave → Option Utm → Host M → Outcome (Code × CreateArg × Host M)
  utm_at a p e none h = ret (enomem, a, h)
  utm_at a p e (some utm) h = utm_done a p e (utm_init k h utm a.utm_size)

  abbrev pub utm_init_at : CreateArg → Option ℕ → Host M → Outcome (Code × CreateArg × Host M)
  utm_init_at a none h = ret (einval, a, h)
  utm_init_at a (some p) h = deref (h.heap p) >>= λ e. utm_at a p e (k.kmalloc_utm h) h

  unfoldable pub utm_init_ioctl : CreateArg → Host M → Outcome (Code × CreateArg × Host M)
  unfolding utm_init
  utm_init_ioctl a h = utm_init_at a (get_enclave_by_id k h a.eid) h

  -- The end of __keystone_destroy_enclave
  abbrev pub drop_enclave : ℕ → ℕ → Host M → Outcome (Code × Host M)
  drop_enclave ueid p h =
      driver_destroy_enclave k h p >>= λ r. ret (ok, enclave_idr_remove k r.1 (ueid % 2 ^ 32))

  abbrev pub destroy_answer : ℕ → ℕ → Host M → (ℕ × ℕ) × M → Outcome (Code × Host M)
  destroy_answer ueid p h ((error, value), m) =
      let h1 = record h { monitor = m } in
      if error == 0 then drop_enclave ueid p h1 else ret (einval, h1)

  -- The test `enclave->eid >= 0` is on an unsigned long, and always holds.
  abbrev pub destroy_with : ℕ → ℕ → Host M → KernelEnclave → Outcome (Code × Host M)
  destroy_with ueid p h e =
      if not (ltb e.eid 0)
      then destroy_answer ueid p h (sm.destroy_call e.eid h.monitor)
      else drop_enclave ueid p h

  abbrev pub destroy_at : ℕ → Option ℕ → Host M → Outcome (Code × Host M)
  destroy_at ueid none h = ret (einval, h)
  destroy_at ueid (some p) h = deref (h.heap p) >>= destroy_with ueid p h

  -- __keystone_destroy_enclave
  unfoldable pub destroy_by_id : ℕ → Host M → Outcome (Code × Host M)
  unfolding driver_destroy_enclave
  destroy_by_id ueid h = destroy_at ueid (get_enclave_by_id k h ueid) h

  abbrev pub closed : Code × Host M → Outcome (Code × Host M)
  closed (ok, h) = ret (ok, record h { private_data = 0 })
  closed (code, h) = ret (code, h)

  unfoldable pub keystone_destroy_enclave : CreateArg → Host M → Outcome (Code × Host M)
  unfolding destroy_by_id
  keystone_destroy_enclave a h = destroy_by_id a.eid h >>= closed

  abbrev pub release_at : ℕ → Option ℕ → Host M → Outcome (Code × Host M)
  release_at ueid none h = ret (einval, h)
  release_at ueid (some p) h =
      deref (h.heap p) >>= λ e. if e.close_on_pexit then destroy_by_id ueid h else ret (ok, h)

  unfoldable pub keystone_release : Host M → Outcome (Code × Host M)
  unfolding destroy_by_id
  keystone_release h =
      if h.private_data == 0
      then ret (ok, h)
      else release_at h.private_data (get_enclave_by_id k h h.private_data) h

-- The command, with the copy of its argument; `other` is any other number.
pub data Command : Type 0 where
  create : CreateArg → Command
  finalize : CreateArg → Command
  destroy : CreateArg → Command
  run : RunArg → Command
  resume : RunArg → Command
  init_utm : CreateArg → Command
  other : Command

module _ {M : Type 0} (k : Kernel M) (sm : Monitor M) where
  -- The switch of keystone_ioctl: the code, the argument that is copied back, the state
  unfoldable pub switch : Command → Host M → Outcome (Code × Command × Host M)
  unfolding keystone_create_enclave keystone_finalize_enclave keystone_destroy_enclave
      keystone_run_enclave keystone_resume_enclave utm_init_ioctl
  switch (create a) h = keystone_create_enclave k sm a h >>= λ r. ret (r.0, create r.1, r.2)
  switch (finalize a) h = keystone_finalize_enclave k sm a h >>= λ r. ret (r.0, finalize a, r.1)
  switch (destroy a) h = keystone_destroy_enclave k sm a h >>= λ r. ret (r.0, destroy a, r.1)
  switch (run a) h = keystone_run_enclave k sm a h >>= λ r. ret (r.0, run r.1, r.2)
  switch (resume a) h = keystone_resume_enclave k sm a h >>= λ r. ret (r.0, resume r.1, r.2)
  switch (init_utm a) h = utm_init_ioctl k sm a h >>= λ r. ret (r.0, init_utm r.1, r.2)
  switch other h = ret (enosys, other, h)

  -- copy_to_user, which -ENOSYS does not reach; without it the user's argument stays `c`
  abbrev pub copied : Bool → Command → Code × Command × Host M → Code × Command × Host M
  copied written c (enosys, c1, h) = (enosys, c, h)
  copied written c (code, c1, h) = if written then (code, c1, h) else (efault, c, h)

  -- `arg` is whether the argument is not NULL, `is_read` and `written` whether copy_from_user and
  -- copy_to_user reach all of it.
  unfoldable pub keystone_ioctl :
      Bool → Bool → Bool → Command → Host M → Outcome (Code × Command × Host M)
  unfolding switch
  keystone_ioctl arg is_read written c h =
      if not arg
      then ret (einval, c, h)
      else if not is_read
      then ret (efault, c, h)
      else switch c h >>= λ r. ret (copied written c r)
