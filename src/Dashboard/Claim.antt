-- ===== src/Dashboard/Claim.antt =====
-- `evaluate_claim` of scripts/coverage_dashboard.py: the row of one required claim.
use fv.Prelude.{
  String, Bool, true, false, ◌&&◌, ◌||◌, not, Option, none, some, List, [], ◌∷◌, ◌++◌, ◌==◌,
  if◌then◌else◌, is_nil, concat_map, contains,
}
use fv.Prelude.Errors.{Result, ok, ◌>>=◌}
use fv.Json.{Value, null, Fields, get, truthy}
use fv.Gate.Schema.{Defect, Runtime, TypeError, assumed_classes}
use fv.Gate.Fields.{is_text}
use fv.Gate.Cohort.{fields_of}
use fv.Gate.Sharing.{Index, find_record, shared_artifact_defects, is_assumed}
use fv.Gate.Run.{lookup}
use fv.Dashboard.Record.{View, judge_record}
use fv.Dashboard.Coverage.{
  Slot, Name, executions_of, name_of, cohort_slots, non_passing_executions, cohort_coverage,
}

pub data Status : Type 0 where
  passed failed incomplete missing_record duplicate_record invalid unwaived_assumption : Status
  evidence_gap dependency_gap : Status

-- `system_claims[cid]`
pub record SystemClaim : Type 0 where
  pub depends_on : List String
  pub required_evidence : List String

pub record Row : Type 0 where
  pub claim_id : String
  pub status : Status
  pub evidence_class : Value
  pub result : Value
  pub scope : Value
  pub waived : Bool
  pub defects : List Defect
  pub obligation_kind : Option String
  pub executions : Option (List Slot)
  pub assumed_executions : List (Name × String)
  pub non_passing : List Name
  pub required_evidence : Option (List String)
  pub evidence_coverage : Option (List (String × String))
  pub evidence_gaps : Option (List String)
  pub depends_on : Option (List String)
  pub dependency_gaps : List String
  pub dependencies_not_evaluated : List String

-- What a run of the dashboard is given, beside the records and the required claims.
pub record Inputs : Type 0 where
  pub kinds : List (String × String)
  pub system_claims : List (String × SystemClaim)
  pub required_targets : Option (List String)
  pub manifest : Option String

abbrev pub view : Inputs → String → View
view inputs cid = record {
  obligation_kind = lookup cid inputs.kinds;
  required_targets = inputs.required_targets;
  manifest = inputs.manifest;
}

-- A row before the cohort and the system claim are looked at.
abbrev pub plain_row : String → Status → List Defect → Row
plain_row cid status defects = record {
  claim_id = cid;
  status = status;
  evidence_class = null;
  result = null;
  scope = null;
  waived = false;
  defects = defects;
  obligation_kind = none;
  executions = none;
  assumed_executions = [];
  non_passing = [];
  required_evidence = none;
  evidence_coverage = none;
  evidence_gaps = none;
  depends_on = none;
  dependency_gaps = [];
  dependencies_not_evaluated = [];
}

abbrev pub assumed_slot : Slot → List (Name × String)
assumed_slot s = elim s.evidence_class [
  | none ↦ []
  | some k ↦ if contains assumed_classes k then (name_of s, k) ∷ [] else []
]

abbrev pub assumed_slots : Option (List Slot) → List (Name × String)
assumed_slots cohort = concat_map assumed_slot (cohort_slots cohort)

-- The status of a record without defects.
unfoldable pub record_status : Fields → Option (List Slot) → Status
record_status r cohort =
    if is_text "FAIL" (get "result" r)
    then failed
    else if is_text "INCOMPLETE" (get "result" r)
    then incomplete
    else if (is_assumed (get "evidence_class" r) || not (is_nil (assumed_slots cohort)))
        && not (truthy (get "waiver" r))
    then unwaived_assumption
    else passed

-- The row of a record, from its defects.
unfoldable pub record_row : String → Value → List Defect → Row
record_row cid v defects =
    let r = fields_of v in
    if is_nil defects
    then record (plain_row cid (record_status r (executions_of v)) []) {
      evidence_class = get "evidence_class" r;
      result = get "result" r;
      scope = get "scope" r;
      waived = truthy (get "waiver" r);
      executions = executions_of v;
      assumed_executions = assumed_slots (executions_of v);
    }
    else record (plain_row cid invalid defects) {
      evidence_class = get "evidence_class" r;
      result = get "result" r;
      scope = get "scope" r;
      executions = executions_of v;
    }

abbrev pub is_passed : Status → Bool
is_passed passed = true
is_passed _ = false

-- A row that PASSed with such a gap does not.
abbrev pub demote : Bool → Status → Status → Status
demote gap to s = if is_passed s && gap then to else s

-- Cohort atomicity, whatever the kind of the claim.
unfoldable pub with_cohort : Option String → Row → Row
with_cohort kind row =
    let non_passing = non_passing_executions row.executions in
    record row {
      obligation_kind = kind;
      non_passing = non_passing;
      status = demote (not (is_nil non_passing)) evidence_gap row.status;
    }

abbrev pub is_system_claim : Option String → Bool
is_system_claim none = false
is_system_claim (some k) = k == "system_claim"

-- The tools that a system claim requires.
unfoldable pub with_evidence : Option SystemClaim → Row → Row
with_evidence none row = row
with_evidence (some spec) row =
    let (coverage, gaps) = cohort_coverage spec.required_evidence row.executions in
    record row {
      required_evidence = some spec.required_evidence;
      evidence_coverage = some coverage;
      evidence_gaps = some gaps;
      depends_on = some spec.depends_on;
      status = demote (not (is_nil gaps)) evidence_gap row.status;
    }

unfoldable pub finish_row : Inputs → String → Row → Row
finish_row inputs cid row =
    let kind = lookup cid inputs.kinds in
    let whole = with_cohort kind row in
    if is_system_claim kind then with_evidence (lookup cid inputs.system_claims) whole else whole

-- `evaluate_claim`
unfoldable pub evaluate_claim :
    Runtime → Inputs → Index → List (String × String) → String → Result TypeError Row
evaluate_claim rt inputs ix cited cid = elim (contains ix.duplicates cid) [
  | true ↦ ok (finish_row inputs cid (plain_row cid duplicate_record []))
  | false ↦ elim (find_record cid ix.by_claim) [
    | none ↦ ok (finish_row inputs cid (plain_row cid missing_record []))
    | some v ↦ do
      defects ← judge_record rt (view inputs cid) v
      let found = defects ++ shared_artifact_defects cid v cited
      ok (finish_row inputs cid (record_row cid v found))
  ]
]
