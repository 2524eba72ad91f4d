-- ===== src/Tests/Driver.antt =====
-- A concrete kernel, a monitor that accepts every call but a create with no shared memory, and a
-- table with one enclave.
use keystone_workspace.Base.{
  ◌≤◌, ◌*◌, ℕ, ◌+◌, ◌≡◌, ◌≢◌, ◌⊎◌, inl, inr, refl, sym, ap, ◌∙◌, true, false, ◌==◌, if◌then◌else◌,
  Option, none, some, arith, Bool-cases, ==_iff,
}
use keystone_workspace.Base.Outcome.{ret, hang, Returns}
use keystone_workspace.Driver.State.{
  ok, einval, Epm, KernelEnclave, CreateArg, Host, Monitor, Kernel,
}
use keystone_workspace.Driver.Pages.{digits, epm_init}
use keystone_workspace.Driver.Ioctl.{create, switch, keystone_finalize_enclave, destroy_by_id}
use keystone_workspace.Driver.Steps.{Fresh, Alive}
use keystone_workspace.Driver.Switch.{LeftDangling, switch-Alive}
use keystone_workspace.Driver.Destroy.{Destroyed, destroy_by_id_lem, finalize_refused}
use keystone_workspace.Driver.Mmap.{keystone_mmap, keystone_mmap_any}
use keystone_workspace.Driver.Sizes.{epm_init_lem}

-- The state of the monitor counts its calls.
abbrev monitor : Monitor ℕ
monitor = record {
  create_call = λ a m. ((if a.utm_size == 0 then 1 else 0, 3), m + 1);
  run_call = λ eid m. ((0, 0), m + 1);
  resume_call = λ eid m. ((0, 0), m + 1);
  destroy_call = λ eid m. ((0, 0), m + 1);
}

abbrev junk : Epm
junk = record { ptr = 0; size = 0; order = 0; phys = 0; is_cma = false }

-- kmalloc gives the address 0x100 while it is free, and fails then.
abbrev free_address : Option KernelEnclave → ℕ
free_address none = 0x100
free_address (some e) = 0

abbrev kernel : Kernel ℕ
kernel = record {
  max_order = 11;
  kmalloc_enclave = λ h. free_address (h.heap 0x100);
  kmalloc_epm = λ h. some junk;
  kmalloc_utm = λ h. none;
  get_free_pages = λ h order. 0x8000;
  dma_alloc_coherent = λ h size. (0, 0);
  idr_alloc = λ t. some 0x1000;
  phys_of = λ a. a + 0x8000_0000;
}

free_address-none :
    (o : Option KernelEnclave) → free_address o ≢ 0 → (free_address o ≡ 0x100) × (o ≡ none)
free_address-none none n = (refl, refl)
free_address-none (some e) n = absurd (n refl)

kernel-Fresh : Fresh kernel
kernel-Fresh h n = let (a, o) = free_address-none (h.heap 0x100) n in ap (λ (x : ℕ). h.heap x) a ∙ o

abbrev block : Epm
block = record { ptr = 0x8000; size = 0x4000; order = 2; phys = 0x8000_8000; is_cma = false }

abbrev enclave : KernelEnclave
enclave = record {
  eid = 0xffff_ffff_ffff_ffff;
  close_on_pexit = true;
  utm = none;
  epm = some block;
  is_init = true;
}

abbrev host : Host ℕ
host = record {
  heap = λ p. if 0x200 == p then some enclave else none;
  idr_enclave = λ i. if 0x1001 == i then some 0x200 else none;
  blocks = λ p. p == 0x8000;
  monitor = 0;
  private_data = 0x1001;
}

only_id : (i p : ℕ) → host.idr_enclave i ≡ some p → (i ≡ 0x1001) × (p ≡ 0x200)
only_id i p w = elim (Bool-cases (0x1001 == i)) [
  | inl t ↦
      let v : some 0x200 ≡ some p = sym (rw t refl) ∙ w in (sym ((==_iff 0x1001 i).0 t), sym (cc v))
  | inr f ↦ let v : none ≡ some p = sym (rw f refl) ∙ w in absurd (cc v)
]

host-Alive : Alive kernel host
host-Alive = record {
  live =
      λ i p w. let (a, b) = only_id i p w in (enclave, block, omega (arith, b), (rw b refl), refl);
  apart = λ i j p v w. (only_id i p v).0 ∙ sym (only_id j p w).0;
}

abbrev request : CreateArg
request = record {
  eid = 0x1001;
  min_pages = 3;
  utm_size = 0;
  runtime_paddr = 0;
  user_paddr = 0;
  free_paddr = 0;
  free_requested = 0;
  epm_paddr = 0;
  epm_size = 0;
  utm_paddr = 0;
}

switch-Alive_example :
    Returns
      (λ r.
        let (code, c1, h1) = r in
        Alive kernel h1 ⊎ LeftDangling kernel monitor (create request) (code, h1))
      (switch kernel monitor (create request) host)
switch-Alive_example = switch-Alive kernel monitor (create request) host kernel-Fresh host-Alive

destroy_by_id_lem_example :
    Returns
      (Destroyed kernel monitor 0x1001 0x200 ((0, 0), 1) host)
      (destroy_by_id kernel monitor 0x1001 host)
destroy_by_id_lem_example =
    destroy_by_id_lem kernel monitor 0x1001 0x200 enclave host (omega arith) refl refl

finalize_refused_example :
    Returns
      (λ r. let (code, h1) = r in (code ≡ einval) × (destroy_by_id kernel monitor 0x1001 h1 ≡ hang))
      (keystone_finalize_enclave kernel monitor request host)
finalize_refused_example =
    finalize_refused kernel monitor request host 0x200 enclave block host-Alive refl refl refl
      (omega arith)

epm_init_lem_example :
    let (code, epm1, h1) = epm_init kernel host junk 3 in
    (3 * 4096 ≤ epm1.size) × (epm1.ptr ≢ 0) × (h1.blocks epm1.ptr ≡ true)
unfolding epm_init digits
epm_init_lem_example = epm_init_lem kernel host junk 3 (omega arith) (omega arith) refl

keystone_mmap_any_example :
    (vm_pgoff : ℕ) × (keystone_mmap kernel host 4096 vm_pgoff ≡ ret (ok, some (7, 4096)))
keystone_mmap_any_example =
    keystone_mmap_any kernel host 0x200 7 enclave block refl refl refl refl refl (omega arith)
      (omega arith)
