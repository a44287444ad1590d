-- ===== src/Mailbox.antt =====
-- The mailbox diagnostics, analysis/mailbox_debug.py.
pub mod Words
pub mod Reader
pub mod Summary
