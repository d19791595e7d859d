-- ===== src/Gate.antt =====
-- scripts/check_evidence_records.py: Gate B, which validates evidence records and computes the
-- verdict of a run.
pub mod Indexed
pub mod Backing
pub mod Declared
pub mod Unhashable
pub mod Verdict
pub mod Schema
pub mod Fields
pub mod Artifact
pub mod Execution
pub mod Cohort
pub mod Record
pub mod Sharing
pub mod Run
pub mod Manifest
pub mod Closure
pub mod Distinct
pub mod Accepted
pub mod Entry
