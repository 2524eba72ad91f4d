-- ===== src/Sm/Attest.antt =====
-- Attestation, sealing keys and the copies between the monitor and its caller (sm/src/enclave.c,
-- `sm_sign` and `sm_derive_sealing_key` of sm/src/sm.c).
use keystone_workspace.Base.{
  ℕ, ◌+◌, Bool, not, ◌&&◌, ltb, leb, ◌==◌, if◌then◌else◌, update, List, [], ◌∷◌, ◌++◌,
}
use keystone_workspace.Sm.Codes.{
  success, illegal_argument, not_accessible, not_initialized, unknown_error,
}
use keystone_workspace.Sm.State.{attest_data_maxlen, fresh, state_num, Enclave, Machine}
use keystone_workspace.Sm.Measure.{Crypto, le_bytes, read}
use keystone_workspace.Sm.Enclave.{enclave_exists}

-- copy_to_sm and copy_from_sm of sm/src/mprv.h: a code, and the bytes read or the memory written.
pub record UserCopy : Type 0 where
  pub copy_to_sm : (ℕ → ℕ) → ℕ → ℕ → ℕ × List ℕ
  pub copy_from_sm : (ℕ → ℕ) → ℕ → List ℕ → ℕ × (ℕ → ℕ)

-- The keys and the hash that the root of trust left (`sm_copy_key`).
pub record BootKeys : Type 0 where
  pub sm_hash : List ℕ
  pub sm_public_key : List ℕ
  pub sm_signature : List ℕ
  pub dev_public_key : List ℕ

-- struct report; `rest` is what `data` holds behind the bytes that were copied into it.
pub record Report : Type 0 where
  pub hash : List ℕ
  pub data_len : ℕ
  pub content : List ℕ
  pub rest : List ℕ
  pub signature : List ℕ
  pub keys : BootKeys

-- The report in the order of its fields.
abbrev pub report_bytes : Report → List ℕ
report_bytes r =
    r.hash
    ++ (le_bytes 8 r.data_len
        ++ (r.content
            ++ (r.rest
                ++ (r.signature
                    ++ (r.keys.sm_hash
                        ++ (r.keys.sm_public_key
                            ++ (r.keys.sm_signature ++ r.keys.dev_public_key)))))))

abbrev pub sealing_key_size : ℕ
sealing_key_size = 128

-- The memory with bytes stored from address `a` on.
unfoldable pub write : (ℕ → ℕ) → ℕ → List ℕ → ℕ → ℕ
write mem a [] = mem
write mem a (b ∷ bytes) = write (update mem a b) (a + 1) bytes

module _ (c : Crypto) (u : UserCopy) (keys : BootKeys) where
  unfoldable pub sm_sign : List ℕ → List ℕ
  sm_sign bytes = c.sign bytes

  unfoldable pub sm_derive_sealing_key : List ℕ → List ℕ → ℕ × List ℕ
  sm_derive_sealing_key key_ident enclave_hash = c.kdf (enclave_hash ++ key_ident)

  unfoldable pub copy_enclave_data : Machine → ℕ → ℕ → ℕ × List ℕ
  copy_enclave_data m source size =
      let (illegal, bytes) = u.copy_to_sm m.mem source size in
      (if illegal == 0 then success else illegal_argument, bytes)

  unfoldable pub copy_enclave_report : Machine → ℕ → Report → ℕ × Machine
  copy_enclave_report m dest report =
      let (illegal, mem) = u.copy_from_sm m.mem dest (report_bytes report) in
      (if illegal == 0 then success else illegal_argument, record m { mem = mem })

  unfoldable pub is_attestable : Machine → ℕ → Bool
  is_attestable m eid =
      enclave_exists m eid && leb (state_num fresh) (state_num (m.enclaves eid).state)

  -- The report that is signed and copied. The signature covers the bytes of `enclave` up to the
  -- end of the copied data: hash, data_len and `size` bytes of data.
  unfoldable pub make_report : Enclave → List ℕ → List ℕ → ℕ → Report
  make_report e content rest size = record {
    hash = e.hash;
    data_len = size;
    content = content;
    rest = rest;
    signature = sm_sign (e.hash ++ (le_bytes 8 size ++ content));
    keys = keys;
  }

  -- `stack` is what the local variable holds where nothing is written, behind `size` bytes.
  unfoldable pub attest_enclave : (ℕ → List ℕ) → Machine → ℕ → ℕ → ℕ → ℕ → ℕ × Machine
  attest_enclave stack m report_ptr source size eid =
      if ltb attest_data_maxlen size
      then (illegal_argument, m)
      else if not (is_attestable m eid)
      then (not_initialized, m)
      else let (code, content) = copy_enclave_data m source size in
        if not (code == 0)
        then (not_accessible, m)
        else let (copied, m1) =
            copy_enclave_report m report_ptr
              (make_report (m.enclaves eid) content (stack size) size) in
          if not (copied == 0) then (illegal_argument, m1) else (success, m1)

  -- The addresses are used as they come: the key is derived from the bytes at `key_ident`, and it
  -- and its signature are stored at `sealing_key`.
  unfoldable pub get_sealing_key : Machine → ℕ → ℕ → ℕ → ℕ → ℕ × Machine
  get_sealing_key m sealing_key key_ident key_ident_size eid =
      let (code, key) =
        sm_derive_sealing_key (read m.mem key_ident key_ident_size) (m.enclaves eid).hash in
      let m1 = record m { mem = write m.mem sealing_key key } in
      if not (code == 0)
      then (unknown_error, m1)
      else let signature = sm_sign (read m1.mem sealing_key sealing_key_size) in
        (success, record m1 { mem = write m1.mem (sealing_key + sealing_key_size) signature })
