-- ===== src/Dashboard/Coverage.antt =====
-- `executions_of`, `non_passing_executions` and `cohort_coverage` of scripts/coverage_dashboard.py.
use fv.Prelude.{
  ℕ, suc, String, Bool, true, false, ◌&&◌, not, Option, none, some, List, [], ◌∷◌, ◌==◌,
  if◌then◌else◌, is_nil, any, filter, map,
}
use fv.Json.{Value, get, as_str, as_list, as_obj}

-- An execution as the view reads it: a field that is no text reads as None.
pub record Slot : Type 0 where
  pub index : ℕ
  pub tool : Option String
  pub result : Option String
  pub evidence_class : Option String

abbrev pub slot : ℕ → Value → Slot
slot i v = elim (as_obj v) [
  | none ↦ record { index = i; tool = none; result = none; evidence_class = none }
  | some x ↦ record {
    index = i;
    tool = as_str (get "tool" x);
    result = as_str (get "result" x);
    evidence_class = as_str (get "evidence_class" x);
  }
]

abbrev pub slots : ℕ → List Value → List Slot
slots i [] = []
slots i (v ∷ vs) = slot i v ∷ slots (suc i) vs

-- `executions_of`
unfoldable pub executions_of : Value → Option (List Slot)
executions_of v = elim (as_obj v) [
  | none ↦ none
  | some r ↦ elim (as_obj (get "bindings" r)) [
    | none ↦ none
    | some b ↦ elim (as_list (get "executions" b)) [ none ↦ none | some xs ↦ some (slots 0 xs) ]
  ]
]

-- `entry["tool"] or f"executions[{index}]"`
pub data Name : Type 0 where
  tool_name : String → Name
  position : ℕ → Name

abbrev pub name_of : Slot → Name
name_of s = elim s.tool [
  | none ↦ position s.index
  | some t ↦ if t == "" then position s.index else tool_name t
]

abbrev pub is_pass : Option String → Bool
is_pass none = false
is_pass (some r) = r == "PASS"

abbrev pub is_some {ℓ} : {A : Type ℓ} → Option A → Bool
is_some none = false
is_some (some a) = true

abbrev pub slot_passes : Slot → Bool
slot_passes s = is_some s.tool && is_pass s.result

abbrev pub cohort_slots : Option (List Slot) → List Slot
cohort_slots none = []
cohort_slots (some ss) = ss

-- `non_passing_executions`
unfoldable pub non_passing_executions : Option (List Slot) → List Name
non_passing_executions cohort =
    map name_of (filter (λ s. not (slot_passes s)) (cohort_slots cohort))

abbrev pub is_tool : String → Option String → Bool
is_tool t none = false
is_tool t (some u) = u == t

-- `observed.get(tool)`: the results of the tool's executions, none if it has none.
abbrev pub observed : String → List Slot → List (Option String)
observed t ss = map (λ s. s.result) (filter (λ s. is_tool t s.tool) ss)

-- `next((r for r in results if r), "unknown")`
abbrev pub first_result : List (Option String) → String
first_result [] = "unknown"
first_result (none ∷ rs) = first_result rs
first_result (some r ∷ rs) = if r == "" then first_result rs else r

unfoldable pub coverage_of : String → List Slot → String
coverage_of t ss =
    let seen = observed t ss in
    if is_nil seen then "no-execution" else if any is_pass seen then "PASS" else first_result seen

-- `cohort_coverage`: the result of each required tool, and the tools with no PASS.
unfoldable pub cohort_coverage :
    List String → Option (List Slot) → List (String × String) × List String
unfolding coverage_of
cohort_coverage required_evidence cohort = (
  map (λ t. (t, coverage_of t (cohort_slots cohort))) required_evidence,
  filter (λ t. not (coverage_of t (cohort_slots cohort) == "PASS")) required_evidence,
)
