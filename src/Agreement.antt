-- ===== src/Agreement.antt =====
-- The gate and the dashboard judge by one schema: what the gate accepts the dashboard accepts.
pub mod Apart
pub mod Execution
pub mod Cohort
pub mod Record
pub mod Passing
pub mod Sound
pub mod Claim
pub mod Sharing
pub mod Run
pub mod Verified
pub mod Scope
pub mod Manifest
pub mod Loaders
pub mod Obligations
pub mod Whole
