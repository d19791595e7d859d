-- ===== src/Panel/Guard.antt =====
-- `milestone_verdict_guard` of skills/fv-panel/panel_contract.py: the verdict of a milestone from the
-- statuses of the gate and the synthesis of the panel.
use fv.Prelude.{
  String, Bool, true, false, ◌&&◌, not, Option, none, some, List, [], ◌∷◌, ◌==◌, if◌then◌else◌,
  is_nil, map, any, filter, concat_map, contains, dedup,
}
use fv.Json.{Value, get, as_str, as_list, as_obj, str_with}
use fv.Text.{sorted}
use fv.Gate.Run.{lookup}

pub data Verdict : Type 0 where
  pass fail incomplete contested : Verdict

-- `_G1_PASS`
abbrev pub pass_statuses : List String
pass_statuses = "PASS" ∷ "PASS-waived" ∷ []

-- `_MODEL_DISPUTE`
abbrev pub model_disputes : List String
model_disputes = "FAIL" ∷ "CONTESTED" ∷ "INCOMPLETE" ∷ "insufficient-evidence" ∷ []

-- `_g1_to_verdict`
abbrev pub g1_to_verdict : String → Verdict
g1_to_verdict status =
    if contains pass_statuses status then pass else if status == "FAIL" then fail else incomplete

-- A criterion of the synthesis that has an id: the id and the verdict.
abbrev pub criterion : Value → List (String × Value)
criterion c = elim (as_obj c) [
  | none ↦ []
  | some d ↦ elim (as_str (get "id" d)) [ none ↦ [] | some id ↦ (id, get "verdict" d) ∷ [] ]
]

-- `model_ids` with the verdicts, in the order of the synthesis.
unfoldable pub model_criteria : Value → List (String × Value)
model_criteria synthesis = elim (as_obj synthesis) [
  | none ↦ []
  | some d ↦ elim (as_list (get "criteria" d)) [ none ↦ [] | some cs ↦ concat_map criterion cs ]
]

-- `model_verdict.get(cid)`: a later criterion with the same id replaces an earlier one.
unfoldable pub model_verdict : String → List (String × Value) → Option Value
model_verdict cid [] = none
model_verdict cid ((id, v) ∷ rest) = elim (model_verdict cid rest) [
  | some later ↦ some later
  | none ↦ if id == cid then some v else none
]

-- The ids that the set comprehension takes: those that were seen before.
unfoldable pub repeated : List String → List String → List String
repeated seen [] = []
repeated seen (id ∷ rest) = elim (contains seen id) [
  | true ↦ id ∷ repeated seen rest
  | false ↦ repeated (id ∷ seen) rest
]

unfoldable pub duplicate_ids : List (String × Value) → List String
unfolding repeated
duplicate_ids criteria = sorted (dedup (repeated [] (map (λ (id, v). id) criteria)))

-- `status_by_id.get(cid, "missing-record")`
unfoldable pub g1_status : List (String × String) → String → String
g1_status statuses cid = elim (lookup cid statuses) [ none ↦ "missing-record" | some s ↦ s ]

abbrev pub covered : Option Value → Bool
covered none = false
covered (some v) = true

-- `mv in texts`, for texts.
abbrev pub is_one_of : List String → Option Value → Bool
is_one_of texts none = false
is_one_of texts (some v) = str_with (contains texts) v

-- The verdict of one criterion, from the status of the gate and the panel's verdict.
unfoldable pub judge : String → Option Value → Verdict
judge g1 mv = elim (g1_to_verdict g1) [
  | fail ↦ fail
  | pass ↦
      if not (covered mv)
      then incomplete
      else if is_one_of model_disputes mv
      then contested
      else pass
  | incomplete ↦ incomplete
  | contested ↦ contested
]

abbrev pub is_pass : Verdict → Bool
is_pass pass = true
is_pass _ = false

abbrev pub is_fail : Verdict → Bool
is_fail fail = true
is_fail _ = false

abbrev pub is_incomplete : Verdict → Bool
is_incomplete incomplete = true
is_incomplete _ = false

abbrev pub is_contested : Verdict → Bool
is_contested contested = true
is_contested _ = false

-- What the guard returns, but the texts of the reasons.
pub record Adjudication : Type 0 where
  pub verdict : Verdict
  pub required : List String
  pub per_criterion : List (String × Verdict)
  pub uncovered : List String
  pub duplicates : List String
  pub disputes : List String
  pub unsupported : List String

-- The verdict of the milestone.
unfoldable pub overall : List String → List String → List Verdict → Verdict
overall required duplicates vs =
    if is_nil required
    then incomplete
    else if any is_fail vs
    then fail
    else if not (is_nil duplicates)
    then incomplete
    else if any is_incomplete vs
    then incomplete
    else if any is_contested vs
    then contested
    else pass

-- `milestone_verdict_guard(required_ids, evidence_status)`, applied to the synthesis
unfoldable pub milestone_verdict_guard : List String → List (String × String) → Value → Adjudication
unfolding model_criteria model_verdict duplicate_ids g1_status judge overall
milestone_verdict_guard required_ids statuses synthesis =
    let required = dedup required_ids in
    let criteria = model_criteria synthesis in
    let g1 = g1_status statuses in
    let mv = λ (cid : String). model_verdict cid criteria in
    let verdict_of = λ (cid : String). judge (g1 cid) (mv cid) in
    let duplicates = duplicate_ids criteria in
    record {
      verdict = overall required duplicates (map verdict_of required);
      required = required;
      per_criterion = map {B = String × Verdict} (λ cid. (cid, verdict_of cid)) required;
      uncovered =
          filter (λ cid. not (is_fail (g1_to_verdict (g1 cid))) && not (covered (mv cid))) required;
      duplicates = duplicates;
      disputes = filter (λ cid. is_contested (verdict_of cid)) required;
      unsupported =
          filter (λ cid. is_one_of ("PASS" ∷ []) (mv cid) && not (is_pass (g1_to_verdict (g1 cid))))
            required;
    }
