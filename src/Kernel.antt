-- ===== src/Kernel.antt =====
-- kernel/: memory, processes and file systems.
pub mod Memory
pub mod Process
pub mod Filesystem
