-- ===== src/Sync.antt =====
-- Offsite copies of backup artifacts (app/services/sync.py).
pub mod Rows
pub mod Dispatch
pub mod Attempts
pub mod Opened
pub mod Settled
mod Examples
