-- ===== src/Cleanup.antt =====
-- Retention and cleanup of backup artifacts (app/services/cleanup.py).
pub mod Retention
pub mod Service
pub mod Floors
pub mod Eligible
pub mod Confirmed
mod Examples
