-- ===== src/Snapshot/Scheduler.antt =====
-- The snapshot scheduler, src/fuzzmeter/snapshot/scheduler.py, with the trial records of
-- src/fuzzmeter/trial/models.py that it holds. Time stamps are whole seconds. Each method is
-- a function on the record `Scheduler`; the locks make it one step. The children have the parts:
-- `Periodic` the due snapshots, `Replay` the replay schedule, `Pipeline` the tick queue and its worker,
-- `Progress` the numbers of the progress bars.
pub mod State
pub mod Periodic
pub mod Replay
pub mod Pipeline
pub mod Progress
