-- ===== src/Coverage.antt =====
-- Coverage set artifacts: src/fuzzmeter/resources/entrypoints/coverage_sets.py.
pub mod Codec
pub mod Sets
