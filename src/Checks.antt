-- ===== src/Checks.antt =====
-- Tests: concrete inputs, and the properties applied to them.
pub mod Store
pub mod Routes
pub mod Sessions
pub mod Removal
pub mod Forwarder
pub mod Gateway
pub mod Tables
pub mod Updates
pub mod Events
pub mod Dumps
pub mod Start
pub mod Launch
pub mod Policies
pub mod Coding
pub mod Denied
pub mod Api
