-- ===== src/Snapshot.antt =====
-- Snapshots: src/fuzzmeter/snapshot.
pub mod Scheduler
