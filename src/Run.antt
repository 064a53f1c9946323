-- ===== src/Run.antt =====
-- What starts a run and ends it, src/fuzzmeter/run/.
pub mod Resources
pub mod Shutdown
pub mod Live
pub mod Replay
