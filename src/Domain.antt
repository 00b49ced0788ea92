-- ===== src/Domain.antt =====
-- The domain layer (app/domain): closed enumerations, world instances and their lifecycle.
pub mod Values
pub mod World
pub mod Lifecycle
