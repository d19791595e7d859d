-- ===== src/Dashboard/Execution.antt =====
-- `_execution_defects` and `_derivation_defects` of scripts/coverage_dashboard.py: one entry of a
-- cohort by the rules that need no repository, and the bindings derived from the first entry.
use fv.Prelude.{
  ℕ, suc, String, Bool, true, ◌&&◌, ◌||◌, not, Option, none, some, List, [], ◌∷◌, ◌++◌, ◌==◌,
  if◌then◌else◌, is_nil, all, filter, when, contains, map,
}
use fv.Prelude.Errors.{Result, ok, ◌>>=◌}
use fv.Json.{Value, null, Fields, get, has, as_str, as_list, as_obj, str_with, py_eq, or_null}
use fv.Text.{evidence_tool_id}
use fv.Gate.Schema.{
  Defect, not_object, missing_field, malformed_tool, duplicate_tool, unknown_class,
  incompatible_class, bad_command, not_relative_path, lacks_identity, unknown_result, run_id_empty,
  duplicate_artifact, foreign_artifact, marker_empty, at, underived_output, underived_command,
  underived_cwd, underived_marker, evidence_classes, compatibility, results, execution_fields,
  producer_profile, Runtime, TypeError, in_set,
}
use fv.Gate.Fields.{nonempty_str, nonblank_str, is_text, valid_toolchain}
use fv.Gate.Execution.{producer_artifact}

-- `_execution_state`
pub record State : Type 0 where
  pub claim_id : Value
  pub producer : Bool
  pub seen_tools : List String
  pub seen_paths : List (String × ℕ)

unfoldable pub execution_state : Value → Fields → State
execution_state claim_id b = record {
  claim_id = claim_id;
  producer = is_text producer_profile (get "profile" b);
  seen_tools = [];
  seen_paths = [];
}

-- The tool's defects, and the state that has seen it.
unfoldable pub judge_tool : State → Value → List Defect × State
judge_tool s v = elim (as_str v) [
  | none ↦ (malformed_tool v ∷ [], s)
  | some t ↦
      if not (evidence_tool_id t)
      then (malformed_tool v ∷ [], s)
      else if contains s.seen_tools t
      then (duplicate_tool t ∷ [], s)
      else ([], record s { seen_tools = t ∷ s.seen_tools })
]

unfoldable pub judge_class : Option String → Value → Bool → List Defect
judge_class kind v known = if not known then unknown_class v ∷ [] else (elim kind [
  | none ↦ []
  | some k ↦ elim (compatibility k) [
    | none ↦ incompatible_class v k ∷ []
    | some compatible ↦ if str_with (contains compatible) v then [] else incompatible_class v k ∷ []
  ]
])

unfoldable pub judge_command : Value → List Defect
judge_command v = elim (as_list v) [
  | none ↦ bad_command v ∷ []
  | some parts ↦ if is_nil parts || not (all nonempty_str parts) then bad_command v ∷ [] else []
]

abbrev pub lookup_index : String → List (String × ℕ) → Option ℕ
lookup_index p [] = none
lookup_index p ((q, i) ∷ rest) = if q == p then some i else lookup_index p rest

abbrev pub text_or_empty : Value → String
text_or_empty v = elim (as_str v) [ none ↦ "" | some s ↦ s ]

-- The artifact's defects, and the state that has seen it.
unfoldable pub judge_path : State → Value → Value → ℕ → List Defect × State
judge_path s path run_id index = elim (as_str path) [
  | none ↦ ([], s)
  | some p ↦
      if p == ""
      then ([], s)
      else let expected = producer_artifact (text_or_empty s.claim_id) (text_or_empty run_id) in
        let foreign =
          when (s.producer && str_with (λ _. true) run_id && not (p == expected))
            (foreign_artifact p expected) in
        (elim (lookup_index p s.seen_paths) [
          | some i ↦ (duplicate_artifact p i ∷ foreign, s)
          | none ↦ (foreign, record s { seen_paths = (p, index) ∷ s.seen_paths })
        ])
]

unfoldable pub judge_entry : State → Option String → Fields → ℕ → Bool → Bool → List Defect × State
judge_entry s kind x index known judged =
    let (tool, s1) = judge_tool s (get "tool" x) in
    let (path, s2) = judge_path s1 (get "raw_output_path" x) (get "run_id" x) index in
    (
      tool
          ++ (judge_class kind (get "evidence_class" x) known
              ++ (judge_command (get "command" x)
                  ++ (when (not (nonblank_str (get "cwd" x)))
                        (not_relative_path "cwd" (get "cwd" x))
                      ++ (when (not (valid_toolchain (get "toolchain_digests" x))) lacks_identity
                          ++ (when (not judged) (unknown_result (get "result" x))
                              ++ (when (not (nonblank_str (get "run_id" x))) run_id_empty
                                  ++ (path
                                      ++ when
                                          (has "pass_marker" x
                                            && not (nonempty_str (get "pass_marker" x)))
                                          marker_empty))))))),
      s2,
    )

unfoldable pub judge_execution :
    Value → ℕ → State → Option String → Result TypeError (List Defect × State)
judge_execution execution index s kind = elim (as_obj execution) [
  | none ↦ ok (not_object ∷ [], s)
  | some x ↦
      let missing = filter (λ f. not (has f x)) execution_fields in
      if is_nil missing
      then (do
        known ← in_set (get "evidence_class" x) evidence_classes
        judged ← in_set (get "result" x) results
        ok (judge_entry s kind x index known judged))
      else ok (map missing_field missing, s)
]

-- The loop over the executions, from an index on.
unfoldable pub judge_executions :
    List Value → ℕ → State → Option String → Result TypeError (List Defect)
judge_executions [] index s kind = ok []
judge_executions (x ∷ xs) index s kind = do
  (defects, s') ← judge_execution x index s kind
  rest ← judge_executions xs (suc index) s' kind
  ok (map (at index) defects ++ rest)

-- The record's command, read as JSON if it is a text; None if that fails.
abbrev declared_command : Runtime → Fields → Value
declared_command rt b = elim (as_str (get "command" b)) [
  | none ↦ get "command" b
  | some s ↦ or_null (rt.loads s)
]

abbrev declared : String → Fields → Value
declared key b = elim (as_obj (get "configuration" b)) [ none ↦ null | some c ↦ get key c ]

-- `_derivation_defects`
unfoldable pub judge_derivation : Runtime → Fields → Fields → List Defect
judge_derivation rt b primary =
    (if not (py_eq (get "raw_output_path" b) (get "raw_output_path" primary))
        || not (py_eq (get "raw_output_hash" b) (get "raw_output_hash" primary))
      then underived_output ∷ []
      else [])
    ++ (when (not (py_eq (declared_command rt b) (get "command" primary))) underived_command
        ++ (when (not (py_eq (declared "cwd" b) (get "cwd" primary))) underived_cwd
            ++ when (not (py_eq (declared "pass_marker" b) (get "pass_marker" primary)))
                underived_marker))
