-- ===== src/Edge.antt =====
-- Edge calls between an application and its host (sdk/src/edge).
pub mod Shared
pub mod Bounds
pub mod Dispatch
pub mod Syscall
