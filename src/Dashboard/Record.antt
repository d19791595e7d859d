-- ===== src/Dashboard/Record.antt =====
-- `validate_record` of scripts/coverage_dashboard.py.
use fv.Prelude.{
  String, Bool, ◌&&◌, ◌||◌, not, Option, none, some, List, [], ◌∷◌, ◌++◌, if◌then◌else◌, is_nil,
  filter, when, contains, map, concat_map,
}
use fv.Prelude.Errors.{Result, ok, ◌>>=◌}
use fv.Json.{Value, Fields, get, has, as_list, as_obj, is_bool, is_null, is_empty, str_with}
use fv.Gate.Schema.{
  Defect, not_object, missing_field, claim_id_empty, required_not_boolean, unknown_class,
  unknown_result, scope_empty, bindings_not_object, missing_binding, empty_binding,
  incompatible_class, executions_not_array, evidence_classes, compatibility, results, top_fields,
  binding_fields, v3_binding_fields, nullable, Runtime, TypeError, in_set,
}
use fv.Gate.Fields.{
  nonempty_str, nonblank_str, waiver_defects, asserted_field_defects, dirty_snapshot_defects,
  manifest_binding_defects, v3_producer_defects, is_schema_v3, producer_identity_defects,
}
use fv.Gate.Cohort.{fields_of}
use fv.Dashboard.Execution.{execution_state, judge_executions, judge_derivation}

-- The arguments of `validate_record` beside the record.
pub record View : Type 0 where
  pub obligation_kind : Option String
  pub required_targets : Option (List String)
  pub manifest : Option String

-- The rules on the fields beside the bindings, and on the waiver.
unfoldable pub judge_head : Fields → Bool → Bool → List Defect
judge_head r known judged =
    when (not (nonempty_str (get "claim_id" r))) claim_id_empty
    ++ (when (not (is_bool (get "required" r))) required_not_boolean
        ++ (when (not known) (unknown_class (get "evidence_class" r))
            ++ (when (not judged) (unknown_result (get "result" r))
                ++ (when (not (nonblank_str (get "scope" r))) scope_empty
                    ++ waiver_defects (get "waiver" r)))))

unfoldable pub judge_binding : Fields → String → List Defect
judge_binding b f =
    if not (has f b)
    then missing_binding f ∷ []
    else if is_empty (get f b) || (is_null (get f b) && not (contains nullable f))
    then empty_binding f ∷ []
    else []

unfoldable pub judge_shape : Fields → Bool → List Defect
judge_shape b schema_v3 =
    concat_map (judge_binding b) (binding_fields ++ (if schema_v3 then v3_binding_fields else []))
    ++ (asserted_field_defects b schema_v3 ++ producer_identity_defects b)

-- The cohort of a v3 record, behind the defects found before it.
unfoldable pub judge_cohort :
    Runtime → View → Fields → Fields → List Defect → Result TypeError (List Defect)
judge_cohort rt w r b before = elim (as_list (get "executions" b)) [
  | none ↦ ok (before ++ executions_not_array ∷ [])
  | some [] ↦ ok (before ++ executions_not_array ∷ [])
  | some (x ∷ xs) ↦ do
    cohort ← judge_executions (x ∷ xs) 0 (execution_state (get "claim_id" r) b) w.obligation_kind
    ok (before ++ (if is_nil cohort then judge_derivation rt b (fields_of x) else cohort))
]

unfoldable pub judge_kind : Option String → Value → List Defect
judge_kind kind klass = elim kind [
  | none ↦ []
  | some k ↦ elim (compatibility k) [
    | none ↦ incompatible_class klass k ∷ []
    | some compatible ↦
        if str_with (contains compatible) klass then [] else incompatible_class klass k ∷ []
  ]
]

-- The rules on a record of sound shape.
unfoldable pub judge_bound :
    Runtime → View → Fields → Fields → Bool → Result TypeError (List Defect)
judge_bound rt w r b schema_v3 =
    let before =
      dirty_snapshot_defects (get "result" r) b
      ++ (manifest_binding_defects b w.manifest
          ++ ((if schema_v3 then v3_producer_defects b w.required_targets else [])
              ++ judge_kind w.obligation_kind (get "evidence_class" r))) in
    if schema_v3 then judge_cohort rt w r b before else ok before

-- `known` and `judged` tell whether the class and the result are of their sets.
unfoldable pub judge_judged : Runtime → View → Fields → Bool → Bool → Result TypeError (List Defect)
judge_judged rt w r known judged =
    let heads = judge_head r known judged in
    elim (as_obj (get "bindings" r)) [
      | none ↦ ok (heads ++ bindings_not_object ∷ [])
      | some b ↦
          let schema_v3 = is_schema_v3 (get "bindings" r) in
          let shape = heads ++ judge_shape b schema_v3 in
          if is_nil shape then judge_bound rt w r b schema_v3 else ok shape
    ]

unfoldable pub judge_present : Runtime → View → Fields → Result TypeError (List Defect)
judge_present rt w r = do
  known ← in_set (get "evidence_class" r) evidence_classes
  judged ← in_set (get "result" r) results
  judge_judged rt w r known judged

-- `validate_record`
unfoldable pub judge_record : Runtime → View → Value → Result TypeError (List Defect)
judge_record rt w v = elim (as_obj v) [
  | none ↦ ok (not_object ∷ [])
  | some r ↦
      let missing = filter (λ f. not (has f r)) top_fields in
      if is_nil missing then judge_present rt w r else ok (map missing_field missing)
]
