-- ===== src/Tests/Runs.antt =====
-- Runs of the two programs on the concrete values.
use fv.Prelude.{[], ◌∷◌, ◌≡◌, refl}
use fv.Prelude.Errors.{ok}
use fv.Json.{get, has, py_eq}
use fv.Text.{
  obligation_id, producer_claim_id, evidence_tool_id, profile_id, sha256_hex, blank, occurs,
  starts_with, ends_with, sorted, lines, is_trailer, is_line,
}
use fv.Gate.Schema.{in_set}
use fv.Gate.Fields.{
  nonblank_str, valid_toolchain, waiver_defects, asserted_field_defects, dirty_snapshot_defects,
  manifest_binding_defects, v3_producer_defects, is_schema_v3, producer_identity_defects,
}
use fv.Gate.Artifact.{
  contained_path_defect, read_artifact, pass_artifact_defects, raw_artifact_defects,
}
use fv.Gate.Execution.{
  nothing_seen, fresh_tool, tool_defects, see_tool, class_defects, command_defects, result_defects,
  path_defects, see_path, entry_defects, output_defects, execution_defects,
}
use fv.Gate.Cohort.{
  each_execution, derivation_defects, cohort_defects, passing_tools, coverage_defects,
}
use fv.Gate.Record.{
  head_defects, binding_defect, shape_defects, snapshot_defects, intent_defects,
  compatibility_defects, intent_path_defects, repository_defects, bound_defects, validate_judged,
  validate_present, validate_record,
}
use fv.Gate.Sharing.{
  add_record, index_onto, index_records, cited_artifacts, cited_artifact_index,
  shared_artifact_defects, assumed_evidence,
}
use fv.Gate.Run.{
  passed, verified, expectations, sound_status, judge_claim, judge_claims, verdict, gate,
}
use fv.Gate.Manifest.{
  obligation_entry, entries_from, obligation_entries, ids_from, id_list, check_dependencies,
  validate_system_claim, declare, declare_all, resolve, load_manifest, expand_from, expand,
}
use fv.Tests.Data.{
  record_value, runtime, repo, run, execution_with, context, sole_value, sole_manifest,
  manifest_value, manifest,
}

pub record_valid : validate_record runtime (expectations run "INV-1") record_value ≡ ok []
unfolding get has py_eq in_set obligation_id producer_claim_id evidence_tool_id profile_id
    sha256_hex blank occurs starts_with ends_with sorted lines is_trailer is_line nonblank_str
    valid_toolchain waiver_defects asserted_field_defects dirty_snapshot_defects
    manifest_binding_defects v3_producer_defects is_schema_v3 producer_identity_defects
    contained_path_defect read_artifact pass_artifact_defects raw_artifact_defects fresh_tool
    tool_defects see_tool class_defects command_defects result_defects path_defects see_path
    entry_defects output_defects execution_defects each_execution derivation_defects cohort_defects
    passing_tools coverage_defects head_defects binding_defect shape_defects snapshot_defects
    intent_defects compatibility_defects intent_path_defects repository_defects bound_defects
    validate_judged validate_present validate_record
record_valid = refl

pub executions_valid :
    each_execution runtime context repo (execution_with "PASS" ∷ []) 0 nothing_seen ≡ ok []
unfolding get has py_eq in_set obligation_id producer_claim_id evidence_tool_id profile_id
    sha256_hex blank occurs starts_with ends_with sorted lines is_trailer is_line nonblank_str
    valid_toolchain waiver_defects asserted_field_defects dirty_snapshot_defects
    manifest_binding_defects v3_producer_defects is_schema_v3 producer_identity_defects
    contained_path_defect read_artifact pass_artifact_defects raw_artifact_defects fresh_tool
    tool_defects see_tool class_defects command_defects result_defects path_defects see_path
    entry_defects output_defects execution_defects each_execution
executions_valid = refl

-- The claim is judged once, though it is asked for twice.
pub gate_verified :
    gate runtime run (record_value ∷ []) ("INV-1" ∷ "INV-1" ∷ [])
    ≡ ok (("INV-1", passed) ∷ [], verified ("producer-trusted-execution" ∷ []) "recomputed" [])
unfolding get has py_eq in_set obligation_id producer_claim_id evidence_tool_id profile_id
    sha256_hex blank occurs starts_with ends_with sorted lines is_trailer is_line nonblank_str
    valid_toolchain waiver_defects asserted_field_defects dirty_snapshot_defects
    manifest_binding_defects v3_producer_defects is_schema_v3 producer_identity_defects
    contained_path_defect read_artifact pass_artifact_defects raw_artifact_defects fresh_tool
    tool_defects see_tool class_defects command_defects result_defects path_defects see_path
    entry_defects output_defects execution_defects each_execution derivation_defects cohort_defects
    passing_tools coverage_defects head_defects binding_defect shape_defects snapshot_defects
    intent_defects compatibility_defects intent_path_defects repository_defects bound_defects
    validate_judged validate_present validate_record add_record index_onto index_records
    cited_artifacts cited_artifact_index shared_artifact_defects assumed_evidence sound_status
    judge_claim judge_claims verdict gate
gate_verified = refl

pub claim_judged :
    judge_claim runtime run (index_records (record_value ∷ [])) [] "INV-1" ≡ ok passed
unfolding get has py_eq in_set obligation_id producer_claim_id evidence_tool_id profile_id
    sha256_hex blank occurs starts_with ends_with sorted lines is_trailer is_line nonblank_str
    valid_toolchain waiver_defects asserted_field_defects dirty_snapshot_defects
    manifest_binding_defects v3_producer_defects is_schema_v3 producer_identity_defects
    contained_path_defect read_artifact pass_artifact_defects raw_artifact_defects fresh_tool
    tool_defects see_tool class_defects command_defects result_defects path_defects see_path
    entry_defects output_defects execution_defects each_execution derivation_defects cohort_defects
    passing_tools coverage_defects head_defects binding_defect shape_defects snapshot_defects
    intent_defects compatibility_defects intent_path_defects repository_defects bound_defects
    validate_judged validate_present validate_record add_record index_onto index_records
    cited_artifacts cited_artifact_index shared_artifact_defects assumed_evidence sound_status
    judge_claim judge_claims verdict gate
claim_judged = refl

pub manifest_loaded : load_manifest manifest_value ≡ ok manifest
unfolding get obligation_id producer_claim_id evidence_tool_id obligation_entry entries_from
    obligation_entries ids_from id_list check_dependencies validate_system_claim declare declare_all
    resolve load_manifest expand_from expand
manifest_loaded = refl

pub expanded : expand manifest ("SYS-1" ∷ []) ≡ "SYS-1" ∷ "INV-1" ∷ []
unfolding expand_from expand
expanded = refl

pub sole_loaded : load_manifest sole_value ≡ ok sole_manifest
unfolding get obligation_id producer_claim_id evidence_tool_id obligation_entry entries_from
    obligation_entries ids_from id_list check_dependencies validate_system_claim declare declare_all
    resolve load_manifest expand_from expand
sole_loaded = refl
