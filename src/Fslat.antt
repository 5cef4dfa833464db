-- ===== src/Fslat.antt =====
-- producers/fslatency/vfslatency-common: the eBPF side of the latency monitor.
pub mod Maps
pub mod Stats
pub mod Hist
pub mod Prefix
pub mod Path
pub mod Tests
pub mod Message
pub mod Entry
pub mod Exit
pub mod Call
pub mod Probes
pub mod Program
pub mod Loader
pub mod Counter
pub mod Lock
