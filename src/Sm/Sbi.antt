-- ===== src/Sm/Sbi.antt =====
-- The SBI calls (sm/src/sm-sbi.c) and their dispatcher (sm/src/sm-sbi-opensbi.c). A call ends by a
-- value that OpenSBI returns to the caller, or by `sbi_trap_exit` with the saved registers.
pub mod Gate
use keystone_workspace.Base.{
  ℕ, suc, zero, ◌+◌, ◌*◌, ◌%◌, ◌^◌, Bool, true, false, not, ltb, leb, ◌==◌, if◌then◌else◌, update,
  Option, none, some, List, [], ◌∷◌,
}
use keystone_workspace.Base.Outcome.{Outcome, ret, hang, ◌>>=◌}
use keystone_workspace.Sm.Codes.{
  success, region_overlaps, sbi_prohibited, deprecated, not_implemented,
}
use keystone_workspace.Sm.State.{Pregion, CreateArgs, Hart, Machine, OpenSbi}
use keystone_workspace.Sm.Measure.{Crypto, read}
use keystone_workspace.Sm.Switch.{cpu_is_enclave_context, cpu_get_enclave_id}
use keystone_workspace.Sm.Create.{CreateResult, create_enclave}
use keystone_workspace.Sm.Destroy.{destroy_enclave}
use keystone_workspace.Sm.Run.{CallResult, run_enclave, exit_enclave, stop_enclave, resume_enclave}
use keystone_workspace.Sm.Attest.{UserCopy, BootKeys, attest_enclave, get_sealing_key}

-- The function ids of sdk/include/shared/sm_call.h.
abbrev pub fid_range_deprecated : ℕ
fid_range_deprecated = 1999

abbrev pub fid_create : ℕ
fid_create = 2001

abbrev pub fid_destroy : ℕ
fid_destroy = 2002

abbrev pub fid_run : ℕ
fid_run = 2003

abbrev pub fid_resume : ℕ
fid_resume = 2005

abbrev pub fid_range_host : ℕ
fid_range_host = 2999

abbrev pub fid_random : ℕ
fid_random = 3001

abbrev pub fid_attest : ℕ
fid_attest = 3002

abbrev pub fid_sealing_key : ℕ
fid_sealing_key = 3003

abbrev pub fid_stop : ℕ
fid_stop = 3004

abbrev pub fid_exit : ℕ
fid_exit = 3006

abbrev pub fid_range_enclave : ℕ
fid_range_enclave = 3999

abbrev pub fid_plugin : ℕ
fid_plugin = 4000

-- How a call ends: a code and `*out_val` where it was written, or an exit from the trap.
pub data Reply : Type 0 where
  value : ℕ → Option ℕ → Reply
  trap_exit : Reply

abbrev pub SbiResult : Type 0
SbiResult = Reply × Machine × Hart

-- Word `n` of a list of bytes.
unfoldable pub word : ℕ → List ℕ → ℕ
word zero (a ∷ b ∷ c ∷ d ∷ e ∷ f ∷ g ∷ h ∷ rest) =
    a
    + 2 ^ 8 * (b + 2 ^ 8 * (c + 2 ^ 8 * (d + 2 ^ 8 * (e + 2 ^ 8 * (f + 2 ^ 8 * (g + 2 ^ 8 * h))))))
word (suc n) (a ∷ b ∷ c ∷ d ∷ e ∷ f ∷ g ∷ h ∷ rest) = word n rest
word n bytes = 0

-- The eight words of struct keystone_sbi_create_t.
unfoldable pub decode_args : List ℕ → CreateArgs
decode_args b = record {
  epm_region = record { paddr = word 0 b; size = word 1 b };
  utm_region = record { paddr = word 2 b; size = word 3 b };
  runtime_paddr = word 4 b;
  user_paddr = word 5 b;
  free_paddr = word 6 b;
  free_requested = word 7 b;
}

-- The registers a0, a1 and the program counter behind the call.
abbrev pub set_a0 : Hart → ℕ → Hart
set_a0 h v = record h { gpr = update h.gpr 10 v }

abbrev pub set_a1 : Hart → ℕ → Hart
set_a1 h v = record h { gpr = update h.gpr 11 v }

abbrev pub skip_ecall : Hart → Hart
skip_ecall h = record h { mepc = (h.mepc + 4) % 2 ^ 64 }

-- An enclave id is an unsigned int.
abbrev pub to_eid : ℕ → ℕ
to_eid a = a % 2 ^ 32

abbrev pub leave : ℕ → Machine → Hart → SbiResult
leave code m h = (trap_exit, m, skip_ecall (set_a0 h code))

module _ (sbi : OpenSbi) (c : Crypto) (u : UserCopy) (keys : BootKeys) (stack : ℕ → List ℕ) where
  unfoldable pub copy_enclave_create_args : Machine → ℕ → ℕ × CreateArgs
  copy_enclave_create_args m src =
      let (overlap, bytes) = u.copy_to_sm m.mem src 64 in
      (if overlap == 0 then success else region_overlaps, decode_args bytes)

  unfoldable pub sbi_sm_create_enclave : Machine → Hart → ℕ → Outcome SbiResult
  sbi_sm_create_enclave m h create_args =
      let (code, args) = copy_enclave_create_args m create_args in
      if not (code == 0)
      then ret (value code none, m, h)
      else do r ← create_enclave sbi c h args m; ret (value r.code r.eid, r.machine, h)

  unfoldable pub sbi_sm_destroy_enclave : Machine → Hart → ℕ → SbiResult
  sbi_sm_destroy_enclave m h eid =
      let (code, m1) = destroy_enclave sbi m (to_eid eid) in (value code none, m1, h)

  unfoldable pub sbi_sm_run_enclave : Machine → ℕ → Hart → ℕ → Outcome SbiResult
  sbi_sm_run_enclave m hart h eid = do
    (code, m1, h1) ← run_enclave m hart h (to_eid eid)
    ret (leave code m1 h1)

  -- `a0` gets the code only if the word of register x0 is 0.
  unfoldable pub sbi_sm_resume_enclave : Machine → ℕ → Hart → ℕ → Outcome SbiResult
  sbi_sm_resume_enclave m hart h eid = do
    (code, m1, h1) ← resume_enclave m hart h (to_eid eid)
    let h2 = if h1.gpr 0 == 0 then set_a0 h1 code else h1
    ret (trap_exit, m1, skip_ecall h2)

  unfoldable pub sbi_sm_exit_enclave : Machine → ℕ → Hart → ℕ → Outcome SbiResult
  sbi_sm_exit_enclave m hart h retval = do
    (code, m1, h1) ← exit_enclave m hart h (cpu_get_enclave_id m hart)
    ret (trap_exit, m1, skip_ecall (set_a1 (set_a0 h1 code) retval))

  unfoldable pub sbi_sm_stop_enclave : Machine → ℕ → Hart → ℕ → Outcome SbiResult
  sbi_sm_stop_enclave m hart h request = do
    (code, m1, h1) ← stop_enclave m hart h request (cpu_get_enclave_id m hart)
    ret (leave code m1 h1)

  unfoldable pub sbi_sm_attest_enclave : Machine → ℕ → Hart → ℕ → ℕ → ℕ → SbiResult
  sbi_sm_attest_enclave m hart h report source size =
      let (code, m1) =
        attest_enclave c u keys stack m report source size (cpu_get_enclave_id m hart) in
      (value code none, m1, h)

  unfoldable pub sbi_sm_get_sealing_key : Machine → ℕ → Hart → ℕ → ℕ → ℕ → SbiResult
  sbi_sm_get_sealing_key m hart h sealing_key key_ident size =
      let (code, m1) =
        get_sealing_key c u keys m sealing_key key_ident size (cpu_get_enclave_id m hart) in
      (value code none, m1, h)

  -- The first test of the handler: the id's range against the context of the hart.
  unfoldable pub prohibited : Machine → ℕ → ℕ → Option ℕ
  prohibited m hart funcid =
      if leb funcid fid_range_deprecated
      then some deprecated
      else if leb funcid fid_range_host
      then (if cpu_is_enclave_context m hart then some sbi_prohibited else none)
      else if leb funcid fid_range_enclave
      then (if not (cpu_is_enclave_context m hart) then some sbi_prohibited else none)
      else none

  -- The `switch`. `random` is what `platform_random` gives. Without PLUGIN_ENABLE_MULTIMEM
  -- `call_plugin` has its default case only.
  unfoldable pub dispatch : ℕ → Machine → ℕ → Hart → ℕ → Outcome SbiResult
  dispatch random m hart h funcid =
      let a0 = h.gpr 10 in
      let a1 = h.gpr 11 in
      let a2 = h.gpr 12 in
      if funcid == fid_create
      then sbi_sm_create_enclave m h a0
      else if funcid == fid_destroy
      then ret (sbi_sm_destroy_enclave m h a0)
      else if funcid == fid_run
      then sbi_sm_run_enclave m hart h a0
      else if funcid == fid_resume
      then sbi_sm_resume_enclave m hart h a0
      else if funcid == fid_random
      then ret (value 0 (some random), m, h)
      else if funcid == fid_attest
      then ret (sbi_sm_attest_enclave m hart h a0 a1 a2)
      else if funcid == fid_sealing_key
      then ret (sbi_sm_get_sealing_key m hart h a0 a1 a2)
      else if funcid == fid_stop
      then sbi_sm_stop_enclave m hart h a0
      else if funcid == fid_exit
      then sbi_sm_exit_enclave m hart h a0
      else if funcid == fid_plugin
      then ret (value not_implemented none, m, h)
      else ret (value not_implemented none, m, h)

  unfoldable pub handler : ℕ → Machine → ℕ → Hart → ℕ → Outcome SbiResult
  unfolding prohibited
  handler random m hart h funcid = elim (prohibited m hart funcid) [
    | some code ↦ ret (value code none, m, h)
    | none ↦ dispatch random m hart h funcid
  ]
