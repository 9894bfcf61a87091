-- ===== src/Tests.antt =====
-- Tests, and the theorems at concrete inputs.
pub mod Data
pub mod Services
pub mod Battles
pub mod Matching
pub mod Accounts
pub mod Server
pub mod Wire
pub mod Network
pub mod Timers
pub mod Client
