-- ===== src/Pyramid.antt =====
-- The headless runner of scripts/pyramid_run.py: its layers, the parsing of a plan, the run of the
-- layers and the aggregation of their statuses.
pub mod Order
pub mod Plan
pub mod Machine
pub mod Floors
pub mod Layers
pub mod Run
pub mod Support
pub mod Effects
pub mod Baseline
pub mod Surfaces
pub mod Trail
pub mod Course
pub mod Required
pub mod Verified
pub mod Complete
pub mod Parsed
pub mod Blocked
