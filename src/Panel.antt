-- ===== src/Panel.antt =====
-- The contract of the panels in skills/fv-panel/panel_contract.py: the fence around untrusted text,
-- the split of a brief, the ids of acceptance criteria and the guard on milestone verdicts.
pub mod Untrusted
pub mod Guard
pub mod Fenced
pub mod Milestone
pub mod Backed
pub mod Criteria
