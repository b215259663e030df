-- ===== src/Scheduler.antt =====
-- The collector's scheduler: collector/scheduler/*.py.
mod Tests
pub mod Backfill
pub mod Adaptive
pub mod Force
pub mod Collections
