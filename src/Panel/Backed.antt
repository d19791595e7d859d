-- ===== src/Panel/Backed.antt =====
-- The milestone and the gate: the statuses of `gate_b_status` are those of a run of the gate.
use fv.Prelude.{String, List, map}
use fv.Gate.Run.{
  Run, Status, passed, passed_waived, failed, incomplete, missing_record, duplicate_record, invalid,
  unwaived_assumption,
}

-- `per_claim[…]["status"]`, the text of a status.
abbrev pub status_text : Status → String
status_text passed = "PASS"
status_text passed_waived = "PASS-waived"
status_text failed = "FAIL"
status_text incomplete = "INCOMPLETE"
status_text missing_record = "missing-record"
status_text duplicate_record = "duplicate-record"
status_text (invalid defects) = "invalid"
status_text (unwaived_assumption sources) = "unwaived-assumption"

-- `{entry["claim_id"]: entry["status"] for entry in report["per_claim"]}`: the gate's report has
-- one entry for each claim.
abbrev pub status_map : List (String × Status) → List (String × String)
status_map entries = map {B = String × String} (λ (cid, s). (cid, status_text s)) entries
