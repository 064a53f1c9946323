-- ===== src/Composite.antt =====
-- Composite reports, which put measurements of several runs together: src/fuzzmeter/composite.
pub mod Key
pub mod Diffs
pub mod Compatibility
