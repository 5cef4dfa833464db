-- ===== src/Vmlinux.antt =====
-- The kernel structures of producers/fslatency/vfslatency-common/src/vmlinux.rs: their fields, and
-- where they stand in memory.
pub mod Repr
pub mod Types
mod Tests
pub mod Memory
