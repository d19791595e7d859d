-- ===== src/Gate/Record.antt =====
-- `validate_record`: every rule on one record.
use fv.Prelude.{
  String, Bool, ◌&&◌, ◌||◌, not, Option, none, some, List, [], ◌∷◌, ◌++◌, ◌==◌, if◌then◌else◌,
  is_nil, filter, when, contains, map, concat_map,
}
use fv.Prelude.Errors.{Result, ok, ◌>>=◌}
use fv.Json.{Value, Fields, get, has, as_obj, is_bool, is_null, is_empty, str_with}
use fv.Text.{starts_with}
use fv.Gate.Schema.{
  Defect, not_object, missing_field, claim_id_empty, required_not_boolean, unknown_class,
  unknown_result, scope_empty, bindings_not_object, missing_binding, empty_binding, stale_snapshot,
  stale_intent, stale_intent_path, incompatible_class, evidence_classes, compatibility, results,
  top_fields, binding_fields, v3_binding_fields, nullable, Runtime, Repo, TypeError, in_set,
}
use fv.Gate.Fields.{
  nonempty_str, nonblank_str, is_text, given, waiver_defects, asserted_field_defects,
  dirty_snapshot_defects, manifest_binding_defects, v3_producer_defects, is_schema_v3,
  producer_identity_defects,
}
use fv.Gate.Artifact.{contained_path_defect, raw_artifact_defects}
use fv.Gate.Cohort.{cohort_context, cohort_defects, coverage_defects}

-- The arguments of `validate_record` beside the record.
pub record Expectations : Type 0 where
  pub snapshot : Option String
  pub intent : Option String
  pub manifest : Option String
  pub snapshot_exact : Bool
  pub repo : Option Repo
  pub obligation_kind : Option String
  pub required_evidence : List String
  pub intent_path : Option String
  pub required_targets : Option (List String)

-- The rules on the fields beside the bindings.
unfoldable pub head_defects : Fields → Bool → Bool → List Defect
head_defects r known judged =
    when (not (nonempty_str (get "claim_id" r))) claim_id_empty
    ++ (when (not (is_bool (get "required" r))) required_not_boolean
        ++ (when (not known) (unknown_class (get "evidence_class" r))
            ++ (when (not judged) (unknown_result (get "result" r))
                ++ when (not (nonblank_str (get "scope" r))) scope_empty)))

-- A binding is missing, empty, or null where it may not be.
unfoldable pub binding_defect : Fields → String → List Defect
binding_defect b f =
    if not (has f b)
    then missing_binding f ∷ []
    else when (is_empty (get f b) || (is_null (get f b) && not (contains nullable f)))
        (empty_binding f)

abbrev pub expected_fields : Bool → List String
expected_fields schema_v3 = binding_fields ++ (if schema_v3 then v3_binding_fields else [])

-- The rules on the shape of the bindings and on the waiver.
unfoldable pub shape_defects : Fields → Fields → Bool → List Defect
shape_defects r b schema_v3 =
    concat_map (binding_defect b) (expected_fields schema_v3)
    ++ (producer_identity_defects b
        ++ (asserted_field_defects b schema_v3 ++ waiver_defects (get "waiver" r)))

unfoldable pub snapshot_defects : Option String → Bool → Value → List Defect
snapshot_defects expect exact snapshot = elim (given expect) [
  | none ↦ []
  | some s ↦
      when (not (str_with (λ t. if exact then t == s else starts_with t s) snapshot))
        (stale_snapshot snapshot s)
]

unfoldable pub intent_defects : Option String → Value → List Defect
intent_defects expect intent = elim (given expect) [
  | none ↦ []
  | some s ↦ when (not (is_text s intent)) (stale_intent intent s)
]

-- The class of a record against the kind of its obligation.
unfoldable pub compatibility_defects : Option String → Value → List Defect
compatibility_defects kind klass = elim kind [
  | none ↦ []
  | some k ↦ elim (compatibility k) [
    | none ↦ incompatible_class klass k ∷ []
    | some compatible ↦
        when (not (str_with (contains compatible) klass)) (incompatible_class klass k)
  ]
]

unfoldable pub intent_path_defects : Repo → Option String → Value → List Defect
intent_path_defects repo expect path =
    let contained = contained_path_defect repo path "intent_path" in
    if not (is_nil contained) then contained else (elim expect [
      | none ↦ []
      | some p ↦ when (not (is_text p path)) (stale_intent_path path p)
    ])

-- The rules that read the repository: the cohort of a v3 record, or the artifact of another PASS.
unfoldable pub repository_defects :
    Runtime → Expectations → Fields → Fields → Bool → Result TypeError (List Defect)
repository_defects rt e r b schema_v3 = elim e.repo [
  | none ↦ ok []
  | some repo ↦
      if schema_v3
      then (do
        let context = cohort_context (get "claim_id" r) (get "result" r) b e.obligation_kind
        cohort ← cohort_defects rt repo context b
        ok (intent_path_defects repo e.intent_path (get "intent_path" b) ++ cohort))
      else ok (
          if is_text "PASS" (get "result" r)
          then raw_artifact_defects rt repo (get "evidence_class" r) b
          else [])
]

-- The rules on a record of sound shape, in the order of the source.
unfoldable pub bound_defects :
    Runtime → Expectations → Fields → Fields → Bool → Result TypeError (List Defect)
bound_defects rt e r b schema_v3 = do
  repository ← repository_defects rt e r b schema_v3
  ok (
      dirty_snapshot_defects (get "result" r) b
      ++ (snapshot_defects e.snapshot e.snapshot_exact (get "source_snapshot" b)
          ++ (intent_defects e.intent (get "intent_hash" b)
              ++ (manifest_binding_defects b e.manifest
                  ++ (compatibility_defects e.obligation_kind (get "evidence_class" r)
                      ++ ((if schema_v3 then v3_producer_defects b e.required_targets else [])
                          ++ (repository
                              ++ (if is_text "PASS" (get "result" r)
                                    && not (is_nil e.required_evidence)
                                  then coverage_defects b e.required_evidence
                                  else []))))))))

-- `known` and `judged` tell whether the class and the result are of their sets.
unfoldable pub validate_judged :
    Runtime → Expectations → Fields → Bool → Bool → Result TypeError (List Defect)
validate_judged rt e r known judged =
    let heads = head_defects r known judged in
    elim (as_obj (get "bindings" r)) [
      | none ↦ ok (heads ++ bindings_not_object ∷ [])
      | some b ↦
          let schema_v3 = is_schema_v3 (get "bindings" r) in
          let shape = heads ++ shape_defects r b schema_v3 in
          if is_nil shape then bound_defects rt e r b schema_v3 else ok shape
    ]

unfoldable pub validate_present : Runtime → Expectations → Fields → Result TypeError (List Defect)
validate_present rt e r = do
  known ← in_set (get "evidence_class" r) evidence_classes
  judged ← in_set (get "result" r) results
  validate_judged rt e r known judged

unfoldable pub validate_record : Runtime → Expectations → Value → Result TypeError (List Defect)
validate_record rt e v = elim (as_obj v) [
  | none ↦ ok (not_object ∷ [])
  | some r ↦
      let missing = filter (λ f. not (has f r)) top_fields in
      if is_nil missing then validate_present rt e r else ok (map missing_field missing)
]
