-- ===== src/Driver.antt =====
-- The Linux driver (linux-keystone-driver), built with CONFIG_CMA. Every ioctl runs as one step.
pub mod State
pub mod Pages
pub mod Enclaves
pub mod Ioctl
pub mod Live
pub mod Steps
pub mod Commands
pub mod Requests
pub mod Switch
pub mod Destroy
pub mod Sizes
pub mod Mmap
