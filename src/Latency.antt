-- ===== src/Latency.antt =====
-- The latency analyzer, analysis/latency.py: the packed channel word, the compact binary rows and
-- the loop over one rank's result files.
pub mod Channel
pub mod Compact
pub mod Reader
pub mod Roots
