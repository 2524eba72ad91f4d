-- ===== src/Driver/Mmap.antt =====
-- keystone_mmap (linux-keystone-driver/keystone.c): which physical memory the kernel is asked to
-- map into the process.
use keystone_workspace.Base.{
  ◌-◌, ◌≡◌, ◌<◌, arith, ap, true, ℕ, ◌+◌, ◌*◌, ◌/◌, ◌%◌, ◌^◌, ltb, if◌then◌else◌, Option, none,
  some,
}
use keystone_workspace.Base.Outcome.{Outcome, ret, hang, ◌>>=◌}
use keystone_workspace.Driver.State.{Code, ok, einval, Epm, Utm, KernelEnclave, Host, Kernel}
use keystone_workspace.Driver.Enclaves.{deref, get_enclave_by_id}
use keystone_workspace.Driver.Ioctl.{deref_epm}

-- A pointer that must not be NULL
abbrev pub deref_utm : Option Utm → Outcome Utm
deref_utm none = hang
deref_utm (some utm) = ret utm

-- The arguments of remap_pfn_range: the first physical page and the size, or none if it is not
-- called.
abbrev pub Remap : Type 0
Remap = Option (ℕ × ℕ)

module _ {M : Type 0} (k : Kernel M) where
  abbrev pub mmap_epm : ℕ → ℕ → Epm → Code × Remap
  mmap_epm vsize vm_pgoff epm =
      if ltb 4096 vsize
      then (einval, none)
      else (ok, some ((epm.phys + vm_pgoff * 4096) % 2 ^ 64 / 4096, vsize))

  abbrev pub mmap_utm : ℕ → Utm → Code × Remap
  mmap_utm vsize utm =
      if ltb utm.size vsize then (einval, none) else (ok, some (k.phys_of utm.ptr / 4096, vsize))

  abbrev pub mmap_enclave : ℕ → ℕ → KernelEnclave → Outcome (Code × Remap)
  mmap_enclave vsize vm_pgoff e =
      if e.is_init
      then (deref_epm e.epm >>= λ epm. ret (mmap_epm vsize vm_pgoff epm))
      else (deref_utm e.utm >>= λ utm. ret (mmap_utm vsize utm))

  abbrev pub mmap_at : Host M → ℕ → ℕ → Option ℕ → Outcome (Code × Remap)
  mmap_at h vsize vm_pgoff none = ret (einval, none)
  mmap_at h vsize vm_pgoff (some p) = deref (h.heap p) >>= mmap_enclave vsize vm_pgoff

  -- `vsize` is `vm_end - vm_start`.
  unfoldable pub keystone_mmap : Host M → ℕ → ℕ → Outcome (Code × Remap)
  keystone_mmap h vsize vm_pgoff = mmap_at h vsize vm_pgoff (get_enclave_by_id k h h.private_data)

  mmap_offset :
      (phys page : ℕ)
      → phys % 4096 ≡ 0
      → phys < 2 ^ 64
      → page < 2 ^ 52
      → (phys + (page + 2 ^ 52 - phys / 4096) % 2 ^ 52 * 4096) % 2 ^ 64 / 4096 ≡ page
  mmap_offset phys page z l b = omega arith

  -- While the enclave of a file is being built and its epm is page-aligned, every physical page, also
  -- one that is not of the epm, is mapped by keystone_mmap at some offset.
  pub keystone_mmap_any :
      (h : Host M) (p page : ℕ) (e : KernelEnclave) (epm : Epm)
      → h.idr_enclave (h.private_data % 2 ^ 32) ≡ some p
      → h.heap p ≡ some e
      → e.is_init ≡ true
      → e.epm ≡ some epm
      → epm.phys % 4096 ≡ 0
      → epm.phys < 2 ^ 64
      → page < 2 ^ 52
      → (vm_pgoff : ℕ) × (keystone_mmap h 4096 vm_pgoff ≡ ret (ok, some (page, 4096)))
  unfolding keystone_mmap
  keystone_mmap_any h p page e epm hi hp t he z l b =
      let off = (page + 2 ^ 52 - epm.phys / 4096) % 2 ^ 52 in
      (
        off,
        (rw (hi, hp, t, he)
            (ap (λ (n : ℕ). ret (ok, some (n, 4096))) (mmap_offset epm.phys page z l b))),
      )
