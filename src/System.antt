-- ===== src/System.antt =====
-- The package system (feathers/system): locks, rate limits, sinks, sizes.
pub mod Locker
pub mod Lines
pub mod Rate
pub mod SinkPool
