-- ===== src/Trial.antt =====
-- Trials: src/fuzzmeter/trial.
pub mod Container
pub mod Runner
