-- ===== src/Realtime.antt =====
-- The realtime hub (app/services/realtime.py): replay buffers for each stream, and the queues of the
-- subscribers.
pub mod Hub
pub mod Sequences
pub mod Queues
mod Examples
