-- ===== src/Daemon.antt =====
-- The daemon: daemon/ebpf_ldms/src and daemon/ldms_stream/src.
pub mod Cli
pub mod Stream
pub mod Clock
pub mod Ring
pub mod Main
pub mod Tests
pub mod RingRuns
mod MainRuns
