-- ===== src/Pmp.antt =====
-- The physical memory protection of the security monitor (sm/src/pmp.c, sm/src/pmp.h).
pub mod Bitmap
pub mod Search
pub mod State
pub mod Init
pub mod Isolation
pub mod Regs
pub mod Sharing
