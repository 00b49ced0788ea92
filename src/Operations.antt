-- ===== src/Operations.antt =====
-- The operation engine (app/services/operations.py): durable operation rows, the world lock that is
-- derived from them, and the milestones that are written to the store.
pub mod Rows
pub mod Policy
pub mod Engine
pub mod Methods
pub mod Milestones
pub mod Table
pub mod Effects
pub mod ClaimEffects
pub mod CreateEffects
pub mod Calls
pub mod Cancel
pub mod Superseded
pub mod Presence
pub mod Terminal
pub mod Endings
pub mod Audited
pub mod Activity
pub mod Exclusive
pub mod Compatible
pub mod Idempotent
mod Examples
