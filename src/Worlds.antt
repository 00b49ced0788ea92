-- ===== src/Worlds.antt =====
-- The driver of the worlds (app/services/worlds.py) over the operation engine.
pub mod Store
pub mod Exec
pub mod State
pub mod Readiness
pub mod Launch
pub mod Start
pub mod Stop
pub mod Dispatch
pub mod Eula
pub mod Deletion
pub mod Supervisor
pub mod Kept
pub mod Steps
pub mod Refines
pub mod Stable
pub mod Ends
pub mod Dispatched
pub mod Outcomes
pub mod Stopped
pub mod Started
pub mod Fuel
pub mod Accepted
pub mod Requests
pub mod Stuck
mod Samples
mod Examples
