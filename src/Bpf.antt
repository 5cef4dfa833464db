-- ===== src/Bpf.antt =====
-- What the eBPF programs take from the kernel, from aya and from other crates, as interfaces:
-- operations with the laws of their documentation. Each child also has a concrete instance.
pub mod HashMap
pub mod Helpers
pub mod ModNum
pub mod Kernel
pub mod RingBuf
pub mod Encoder
