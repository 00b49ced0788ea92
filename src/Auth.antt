-- ===== src/Auth.antt =====
-- Identities (app/services/auth.py): logins with their lockout, sessions, the step-up and the change of
-- a password.
pub mod Store
pub mod Accounts
pub mod Service
pub mod Tables
pub mod Failures
pub mod Lockout
pub mod Sessions
pub mod StepUp
mod Examples
