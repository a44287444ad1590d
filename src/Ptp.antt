-- ===== src/Ptp.antt =====
-- The PTP offset closure analyzer, analysis/ptp_alignment.py.
pub mod Slots
pub mod Reader
pub mod Offsets
