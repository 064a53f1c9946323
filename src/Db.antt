-- ===== src/Db.antt =====
-- The run database: src/fuzzmeter/db.
pub mod Ticks
pub mod Trials
