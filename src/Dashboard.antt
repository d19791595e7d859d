-- ===== src/Dashboard.antt =====
-- scripts/coverage_dashboard.py: the per-claim coverage view over evidence records.
pub mod Dependencies
pub mod Gaps
pub mod Summary
pub mod Totals
pub mod Execution
pub mod Record
pub mod Coverage
pub mod Claim
pub mod Manifest
pub mod Run
