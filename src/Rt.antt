-- ===== src/Rt.antt =====
-- Eyrie, the runtime of an enclave (runtime).
pub mod Words
pub mod Freemem
pub mod Table
pub mod Merkle
pub mod Swap
pub mod Calls
