-- ===== src/Pipeline.antt =====
-- A record from the programs of producers/fslatency to what the daemon publishes for it.
pub mod Utf8
pub mod Crates
pub mod Shown
pub mod Arriving
pub mod Delivery
pub mod Passing
pub mod Serving
pub mod Tests
pub mod ServingRuns
