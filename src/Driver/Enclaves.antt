-- ===== src/Driver/Enclaves.antt =====
-- The enclaves of the driver (linux-keystone-driver/keystone-enclave.c). To read or write an
-- enclave that has been freed is undefined in the kernel: `hang`.
use keystone_workspace.Base.{
  ℕ, ◌%◌, ◌^◌, true, ◌||◌, ltb, leb, ◌==◌, if◌then◌else◌, update, Option, none, some,
}
use keystone_workspace.Base.Outcome.{Outcome, ret, hang, ◌>>=◌}
use keystone_workspace.Driver.State.{Code, ok, enosys, Epm, Utm, KernelEnclave, Host, Kernel}
use keystone_workspace.Driver.Pages.{epm_destroy, utm_destroy, epm_init}

-- (unsigned long) -1
abbrev pub no_eid : ℕ
no_eid = 0xffff_ffff_ffff_ffff

abbrev pub enclave_idr_min : ℕ
enclave_idr_min = 0x1000

abbrev pub enclave_idr_max : ℕ
enclave_idr_max = 0xffff

-- What create_enclave writes first
abbrev pub fresh_enclave : KernelEnclave
fresh_enclave = record {
  eid = no_eid;
  close_on_pexit = true;
  utm = none;
  epm = none;
  is_init = true;
}

abbrev pub deref : Option KernelEnclave → Outcome KernelEnclave
deref none = hang
deref (some e) = ret e

module _ {M : Type 0} (k : Kernel M) where
  abbrev pub put_enclave : Host M → ℕ → KernelEnclave → Host M
  put_enclave h p e = record h { heap = update h.heap p (some e) }

  abbrev pub drop_epm : Host M → Option Epm → Host M
  drop_epm h none = h
  drop_epm h (some epm) = epm_destroy k h epm

  abbrev pub drop_utm : Host M → Option Utm → Host M
  drop_utm h none = h
  drop_utm h (some utm) = utm_destroy k h utm

  -- Epm, utm and the enclave itself are freed.
  unfoldable pub driver_destroy_enclave : Host M → ℕ → Outcome (Code × Host M)
  unfolding epm_destroy utm_destroy
  driver_destroy_enclave h p =
      if p == 0
      then ret (enosys, h)
      else deref (h.heap p) >>= λ e.
          let h1 = drop_utm (drop_epm h e.epm) e.utm in
          ret (ok, record h1 { heap = update h1.heap p none })

  -- driver_create_enclave on the new struct with its epm initialised; the address, or NULL
  abbrev pub created : ℕ → KernelEnclave → Code × Epm × Host M → Outcome (ℕ × Host M)
  created p e (ok, epm, h) = ret (p, put_enclave h p (record e { epm = some epm }))
  created p e (code, epm, h) =
      driver_destroy_enclave (put_enclave h p (record e { epm = some epm })) p >>= λ r. ret (0, r.1)

  abbrev pub create_with : Host M → ℕ → KernelEnclave → ℕ → Option Epm → Outcome (ℕ × Host M)
  create_with h p e min_pages none =
      driver_destroy_enclave (put_enclave h p e) p >>= λ r. ret (0, r.1)
  create_with h p e min_pages (some epm) = created p e (epm_init k h epm min_pages)

  -- `min_pages` becomes an unsigned int.
  unfoldable pub driver_create_enclave : Host M → ℕ → Outcome (ℕ × Host M)
  unfolding driver_destroy_enclave epm_init
  driver_create_enclave h min_pages =
      let p = k.kmalloc_enclave h in
      let e = fresh_enclave in
      if p == 0 then ret (0, h) else create_with h p e (min_pages % 2 ^ 32) (k.kmalloc_epm h)

  abbrev pub id_in_range : Option ℕ → ℕ → Host M → ℕ × Host M
  id_in_range none p h = (0, h)
  id_in_range (some ueid) p h =
      let h1 = record h { idr_enclave = update h.idr_enclave ueid (some p) } in
      if ltb ueid enclave_idr_min || leb enclave_idr_max ueid then (0, h1) else (ueid, h1)

  unfoldable pub enclave_idr_alloc : Host M → ℕ → ℕ × Host M
  enclave_idr_alloc h p = id_in_range (k.idr_alloc h.idr_enclave) p h

  abbrev pub enclave_idr_remove : Host M → ℕ → Host M
  enclave_idr_remove h ueid = record h { idr_enclave = update h.idr_enclave ueid none }

  -- The argument is an unsigned int.
  abbrev pub get_enclave_by_id : Host M → ℕ → Option ℕ
  get_enclave_by_id h ueid = h.idr_enclave (ueid % 2 ^ 32)
