-- ===== src/Tests.antt =====
-- Concrete runs of the two programs, and each theorem at a concrete input.
pub mod Panels
pub mod Data
pub mod Runs
pub mod Plans
pub mod Runner
pub mod Milestones
pub mod Traces
pub mod Witnesses
