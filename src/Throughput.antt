-- ===== src/Throughput.antt =====
-- The throughput analyzer, analysis/throughput.py: the decoders of one stream, the aggregate of a
-- workgroup and the loop over a trace root.
pub mod Records
pub mod Aggregate
pub mod Reader
pub mod Output
