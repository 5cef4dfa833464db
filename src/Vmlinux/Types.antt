-- ===== src/Vmlinux/Types.antt =====
-- The structures of vmlinux.rs that the path walk reads, and every structure inside them, as
-- bindgen generated them: the fields in their order.
pub mod Scalars
pub mod Dentries
pub mod Mounts
pub mod Files
pub mod Sched
pub mod Threads
pub mod Accounts
pub mod Fpu
pub mod TaskHead
pub mod Task
