-- ===== src/Gate/Schema.antt =====
-- The constants of scripts/check_evidence_records.py, what it asks of Python's runtime and of the
-- repository, and the defects that it reports: a constructor for each message, with its values.
use fv.Prelude.{ℕ, String, Bool, ◌==◌, Option, none, some, List, [], ◌∷◌, if◌then◌else◌, contains}
use fv.Prelude.{false}
use fv.Prelude.Errors.{Result, ok, raise}
use fv.Json.{Value, null, bool, int, float, str, arr, obj}

abbrev pub evidence_classes : List String
evidence_classes =
    "code-enforced" ∷ "proof-discharged" ∷ "bounded-checked" ∷ "test-witnessed"
    ∷ "conformance-tested" ∷ "externally-assumed" ∷ "unverified" ∷ []

abbrev pub pass_trailer : String
pass_trailer = "--- fv-evidence: exit=0 ---"

-- The texts that the pattern of a class looks for: the alternatives are literal.
abbrev pub pass_markers : String → Option (List String)
pass_markers klass =
    if klass == "code-enforced"
    then some (pass_trailer ∷ [])
    else if klass == "proof-discharged"
    then some ("VERIFICATION:- SUCCESSFUL" ∷ "Build completed successfully" ∷ pass_trailer ∷ [])
    else if klass == "bounded-checked"
    then some ("[ok]" ∷ "VERIFICATION:- SUCCESSFUL" ∷ "No violation found" ∷ [])
    else if klass == "test-witnessed"
    then some (
        "test result: ok." ∷ "[ok]" ∷ "[violation]" ∷ "Invariant violated" ∷ "violation found" ∷ [])
    else if klass == "conformance-tested"
    then some
        ("CONFORMANCE: PASS" ∷ "CONFORMANCE_TESTED: PASS" ∷ "test result: ok." ∷ pass_trailer ∷ [])
    else if klass == "externally-assumed"
    then some (pass_trailer ∷ [])
    else if klass == "unverified"
    then some (pass_trailer ∷ [])
    else none

-- `OBLIGATION_EVIDENCE_COMPATIBILITY.get(kind)`
abbrev pub compatibility : String → Option (List String)
compatibility kind =
    if kind == "invariant"
    then some (
        "code-enforced" ∷ "proof-discharged" ∷ "bounded-checked" ∷ "conformance-tested"
        ∷ "externally-assumed" ∷ "unverified" ∷ [])
    else if kind == "witness"
    then some ("test-witnessed" ∷ "conformance-tested" ∷ "externally-assumed" ∷ "unverified" ∷ [])
    else if kind == "system_claim"
    then some evidence_classes
    else none

abbrev pub assumed_classes : List String
assumed_classes = "externally-assumed" ∷ "unverified" ∷ []

abbrev pub waiver_fields : List String
waiver_fields = "id" ∷ "approver" ∷ "scope" ∷ []

abbrev pub producer_profile : String
producer_profile = "producer-trusted-execution"

abbrev pub results : List String
results = "PASS" ∷ "FAIL" ∷ "INCOMPLETE" ∷ []

abbrev pub top_fields : List String
top_fields =
    "claim_id" ∷ "required" ∷ "evidence_class" ∷ "result" ∷ "scope" ∷ "bindings" ∷ "waiver" ∷ []

abbrev pub binding_fields : List String
binding_fields =
    "source_snapshot" ∷ "intent_hash" ∷ "obligation_manifest_hash" ∷ "profile" ∷ "required_targets"
    ∷ "environment_policy" ∷ "toolchain_digests" ∷ "command" ∷ "configuration" ∷ "seeds"
    ∷ "raw_output_hash" ∷ "parser_schema_version" ∷ "run_id" ∷ []

abbrev pub nullable : List String
nullable = "seeds" ∷ "waiver" ∷ []

abbrev pub v3_binding_fields : List String
v3_binding_fields = "intent_path" ∷ "executions" ∷ []

abbrev pub execution_fields : List String
execution_fields =
    "tool" ∷ "evidence_class" ∷ "command" ∷ "cwd" ∷ "toolchain_digests" ∷ "raw_output_path"
    ∷ "raw_output_hash" ∷ "result" ∷ "run_id" ∷ []

-- What Python's runtime provides: `json.loads` (none is a JSONDecodeError), and the characters
-- that `\d` matches.
pub record Runtime : Type 0 where
  pub loads : String → Option Value
  pub is_decimal : ℕ → Bool

-- The bytes of a file: their SHA-256, and what they decode to.
pub record Artifact : Type 0 where
  pub digest : String
  pub text : String

-- Paths relative to the repository root: `Path.is_absolute`, `".." in Path.parts`, whether the
-- resolved path lies under the resolved root, and the file there.
pub record Repo : Type 0 where
  pub is_absolute : String → Bool
  pub has_parent : String → Bool
  pub inside : String → Bool
  pub file : String → Option Artifact

pub data Defect : Type 0 where
  not_object : Defect
  missing_field : String → Defect
  claim_id_empty required_not_boolean scope_empty bindings_not_object : Defect
  unknown_class unknown_result : Value → Defect
  missing_binding empty_binding : String → Defect
  lacks_identity : Defect
  malformed_profile bad_targets : Value → Defect
  not_nonempty_string : String → Value → Defect
  waiver_not_object : Value → Defect
  waiver_not_attributable : List String → Value → Defect
  dirty_snapshot : String → Defect
  stale_snapshot : Value → String → Defect
  stale_intent stale_manifest stale_intent_path : Value → String → Defect
  incompatible_class : Value → String → Defect
  not_producer : Value → Defect
  repeated_target : Value → Defect
  wrong_targets : List String → List String → Defect
  not_relative_path escapes_root : String → Value → Defect
  unresolvable : Value → Defect
  hash_mismatch : Value → String → Defect
  bad_trailer marker_absent : Defect
  marker_unknown : Value → Defect
  executions_not_array : Defect
  malformed_tool : Value → Defect
  duplicate_tool : String → Defect
  bad_command : Value → Defect
  not_passing : Value → Defect
  run_id_empty : Defect
  duplicate_artifact : String → ℕ → Defect
  foreign_artifact : String → String → Defect
  marker_empty : Defect
  underived_output underived_command underived_cwd underived_marker : Defect
  uncovered : List String → Defect
  shared_artifact : String → List String → Defect
  -- A defect of `executions[i]`.
  at : ℕ → Defect → Defect

-- `TypeError: unhashable type`: a list or a dict was looked up in a set.
pub data TypeError : Type 0 where
  unhashable : TypeError

-- `v in names`, for a set of texts.
unfoldable pub in_set : Value → List String → Result TypeError Bool
in_set null names = ok false
in_set (bool b) names = ok false
in_set (int z) names = ok false
in_set (float m k) names = ok false
in_set (str s) names = ok (contains names s)
in_set (arr vs) names = raise unhashable
in_set (obj d) names = raise unhashable
