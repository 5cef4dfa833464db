-- ===== src/Fslat/Path.antt =====
-- The path of a file, as the entry probe finds it: the walk of the kernel's dentries and mounts,
-- the ring of components that it fills, and the assembly of the path from that ring.
pub mod Walking
pub mod Assembling
pub mod Spec
pub mod Slots
pub mod Climbing
pub mod Walk
pub mod Stopping
pub mod Memory
pub mod Writing
pub mod Assemble
pub mod Whole
