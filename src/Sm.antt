-- ===== src/Sm.antt =====
-- The security monitor above the PMP: enclaves, threads, context switches and the SBI calls
-- (sm/src).
pub mod State
pub mod Thread
pub mod Codes
pub mod Measure
pub mod Ipi
pub mod Frame
pub mod Switch
pub mod Enclave
pub mod Create
pub mod Destroy
pub mod Run
pub mod Attest
pub mod Boot
pub mod Sbi
pub mod Calls
