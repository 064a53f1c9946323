-- ===== src/Reporting.antt =====
-- Report data, src/fuzzmeter/reporting.
pub mod SetComparison
pub mod BugAnalysis
