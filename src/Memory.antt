-- ===== src/Memory.antt =====
-- Memory mode: analysis/memory.py and the CSV helpers of analysis/common.py.
pub mod Metrics
pub mod Probe
pub mod Merge
