-- ===== src/Tests.antt =====
-- Evaluations of the models, and the theorems at concrete inputs.
mod Pmp
mod Machine
mod Sm
mod Calls
mod Edge
mod Host
mod Rt
mod Merkle
mod Driver
