-- ===== src/Tailing.antt =====
-- The line buffers of app/platform/process/tailing.py.
pub mod Buffer
pub mod Replay
mod Examples
