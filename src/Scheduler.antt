-- ===== src/Scheduler.antt =====
-- Schedules (app/services/scheduler.py): the run that a schedule expects, and the tick.
pub mod Times
pub mod Latest
pub mod Tick
pub mod Accounts
mod Examples
