-- ===== src/Fslat/Tests.antt =====
-- Runs of the model of producers/fslatency/vfslatency-common on concrete inputs.
pub mod StatsRuns
pub mod PathRuns
mod MessageRuns
pub mod CallRuns
mod ProbeRuns
pub mod ProgramRuns
mod CounterRuns
mod LockRuns
