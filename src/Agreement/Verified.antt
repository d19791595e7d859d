-- ===== src/Agreement/Verified.antt =====
-- What a run that the gate verifies says of each claim, and which runs the gate verifies.
use fv.Gate.Run.{Run}
