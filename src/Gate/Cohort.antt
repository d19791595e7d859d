-- ===== src/Gate/Cohort.antt =====
-- `_cohort_defects`: every execution of a cohort, and the bindings derived from its first.
-- `_coverage_defects`: the tools that a system claim requires.
use fv.Prelude.{
  ℕ, suc, String, ◌||◌, not, Option, none, some, List, [], ◌∷◌, ◌++◌, if◌then◌else◌, is_nil, filter,
  when, contains, map, concat_map,
}
use fv.Prelude.Errors.{Result, ok, ◌>>=◌}
use fv.Json.{Value, Fields, get, as_str, as_list, as_obj, py_eq, or_null}
use fv.Gate.Schema.{
  Defect, executions_not_array, underived_output, underived_command, underived_cwd,
  underived_marker, uncovered, at, producer_profile, Runtime, Repo, TypeError,
}
use fv.Gate.Fields.{is_text}
use fv.Gate.Artifact.{text_of, configured}
use fv.Gate.Execution.{Seen, nothing_seen, Cohort, execution_defects}

-- The loop over the executions, from an index on.
unfoldable pub each_execution :
    Runtime → Cohort → Repo → List Value → ℕ → Seen → Result TypeError (List Defect)
each_execution rt c repo [] index seen = ok []
each_execution rt c repo (x ∷ xs) index seen = do
  (defects, seen') ← execution_defects rt c repo x index seen
  rest ← each_execution rt c repo xs (suc index) seen'
  ok (map (at index) defects ++ rest)

-- `bindings.command`, read as JSON if it is a text; None if that fails.
abbrev pub decoded_command : Runtime → Fields → Value
decoded_command rt b = elim (as_str (get "command" b)) [
  | none ↦ get "command" b
  | some s ↦ or_null (rt.loads s)
]

-- The legacy bindings against `executions[0]`.
unfoldable pub derivation_defects : Runtime → Fields → Fields → List Defect
derivation_defects rt b primary =
    when
      (not (py_eq (get "raw_output_path" b) (get "raw_output_path" primary))
        || not (py_eq (get "raw_output_hash" b) (get "raw_output_hash" primary)))
      underived_output
    ++ (when (not (py_eq (decoded_command rt b) (get "command" primary))) underived_command
        ++ (when (not (py_eq (configured "cwd" b) (get "cwd" primary))) underived_cwd
            ++ when (not (py_eq (configured "pass_marker" b) (get "pass_marker" primary)))
                underived_marker))

abbrev pub fields_of : Value → Fields
fields_of v = elim (as_obj v) [ none ↦ Fields.end | some d ↦ d ]

-- The executions of the bindings, if they are a nonempty array.
abbrev pub cohort_of : Fields → Option (Value × List Value)
cohort_of b = elim (as_list (get "executions" b)) [
  | none ↦ none
  | some [] ↦ none
  | some (x ∷ xs) ↦ some (x, xs)
]

-- What every execution of a record is judged against.
abbrev pub cohort_context : Value → Value → Fields → Option String → Cohort
cohort_context claim_id result b kind = record {
  claim_id = text_of claim_id;
  record_pass = is_text "PASS" result;
  producer = is_text producer_profile (get "profile" b);
  obligation_kind = kind;
}

unfoldable pub cohort_defects : Runtime → Repo → Cohort → Fields → Result TypeError (List Defect)
cohort_defects rt repo c b = elim (cohort_of b) [
  | none ↦ ok (executions_not_array ∷ [])
  | some (x, xs) ↦ do
    defects ← each_execution rt c repo (x ∷ xs) 0 nothing_seen
    ok (if is_nil defects then derivation_defects rt b (fields_of x) else defects)
]

-- The tools of the executions that PASS.
abbrev pub passing_tool : Value → List String
passing_tool v = elim (as_obj v) [
  | none ↦ []
  | some x ↦ elim (as_str (get "tool" x)) [
    | none ↦ []
    | some t ↦ if is_text "PASS" (get "result" x) then t ∷ [] else []
  ]
]

unfoldable pub passing_tools : Fields → List String
passing_tools b = elim (as_list (get "executions" b)) [
  | none ↦ []
  | some xs ↦ concat_map passing_tool xs
]

unfoldable pub coverage_defects : Fields → List String → List Defect
coverage_defects b required_evidence =
    let missing = filter (λ t. not (contains (passing_tools b) t)) required_evidence in
    when (not (is_nil missing)) (uncovered missing)
