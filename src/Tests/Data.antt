-- ===== src/Tests/Data.antt =====
-- A producer's record with one execution, the repository that holds its artifact, and a manifest:
-- the concrete values of the tests.
use fv.Prelude.{String, true, false, none, some, List, [], ◌∷◌, ◌==◌, if◌then◌else◌, leb, ◌&&◌}
use fv.Json.{Value, null, bool, int, str, arr, obj, pos, Fields, end, field, of_list}
use fv.Gate.Schema.{Runtime, Repo, Artifact}
use fv.Gate.Execution.{Cohort}
use fv.Gate.Run.{Run}
use fv.Gate.Manifest.{Manifest}
use fv.Dashboard.Claim as View
use fv.Dashboard.Claim.{Inputs, SystemClaim, Row, plain_row}
use fv.Dashboard.Coverage.{Slot}

abbrev pub digest : String
digest = "0123456789abcdef0123456789abcdef0123456789abcdef0123456789abcdef"

abbrev pub toolchain : Value
toolchain = obj (
    field "executable" (str "/usr/bin/kani") (
      field "sha256" (str digest)
        (field "version" (str "kani 0.50") (field "version_exit_code" (int (pos 0)) end))))

abbrev pub command : Value
command = arr (of_list (str "cargo" ∷ str "kani" ∷ []))

abbrev pub artifact_path : String
artifact_path = ".fv/evidence/raw/INV-1-r1.log"

-- The execution, with this result.
abbrev pub execution_with : String → Value
execution_with result = obj (
    field "tool" (str "kani") (
      field "evidence_class" (str "proof-discharged") (
        field "command" command (
          field "cwd" (str "crate") (
            field "toolchain_digests" toolchain (
              field "raw_output_path" (str artifact_path) (
                field "raw_output_hash" (str digest)
                  (field "result" (str result) (field "run_id" (str "r1") end)))))))))

-- The bindings, with these executions.
abbrev pub bindings_with : List Value → Fields
bindings_with executions = field "source_snapshot" (str "abc123") (
    field "intent_hash" (str "i1") (
      field "obligation_manifest_hash" (str "m1") (
        field "profile" (str "producer-trusted-execution") (
          field "required_targets" (arr (of_list (str "INV-1" ∷ []))) (
            field "environment_policy" (str "local") (
              field "toolchain_digests" toolchain (
                field "command" command (
                  field "configuration" (obj (field "cwd" (str "crate") end)) (
                    field "seeds" null (
                      field "raw_output_hash" (str digest) (
                        field "parser_schema_version" (str "fv-evidence-run/v3") (
                          field "run_id" (str "r1") (
                            field "intent_path" (str "docs/intent.md") (
                              field "raw_output_path" (str artifact_path)
                                (field "executions" (arr (of_list executions)) end)))))))))))))))

-- The record, with this class, this result and these executions.
abbrev pub fields_with : Value → String → List Value → Fields
fields_with klass result executions = field "claim_id" (str "INV-1") (
    field "required" (bool true) (
      field "evidence_class" klass (
        field "result" (str result) (
          field "scope" (str "the transfer function")
            (field "bindings" (obj (bindings_with executions)) (field "waiver" null end))))))

abbrev pub record_fields : Fields
record_fields = fields_with (str "proof-discharged") "PASS" (execution_with "PASS" ∷ [])

abbrev pub record_value : Value
record_value = obj record_fields

-- A class that is an array cannot be looked up in a set.
abbrev pub unhashable_fields : Fields
unhashable_fields = fields_with (arr (of_list [])) "PASS" (execution_with "PASS" ∷ [])

abbrev pub runtime : Runtime
runtime = record { loads = λ s. none; is_decimal = λ c. leb b'0' c && leb c b'9' }

abbrev pub artifact : Artifact
artifact = record {
  digest = digest;
  text = "VERIFICATION:- SUCCESSFUL\n--- fv-evidence: exit=0 ---\n";
}

abbrev pub repo : Repo
repo = record {
  is_absolute = λ p. false;
  has_parent = λ p. false;
  inside = λ p. true;
  file = λ p. if p == artifact_path then some artifact else none;
}

abbrev pub run : Run
run = record {
  repo = repo;
  snapshot = some "abc123";
  intent = some "i1";
  manifest = some "m1";
  snapshot_exact = true;
  intent_path = some "docs/intent.md";
  required_targets = some ("INV-1" ∷ []);
  kinds = ("INV-1", "invariant") ∷ [];
  evidence = [];
  binding = "recomputed";
}

abbrev pub inputs : Inputs
inputs = record {
  kinds = ("INV-1", "invariant") ∷ [];
  system_claims = [];
  required_targets = some ("INV-1" ∷ []);
  manifest = some "m1";
}

abbrev pub obligation : String → Value
obligation claim_id = obj (field "id" (str claim_id) end)

-- A system claim that rests on one invariant.
abbrev pub system_obligation : Value
system_obligation = obj (
    field "id" (str "SYS-1") (
      field "depends_on" (arr (of_list (str "INV-1" ∷ [])))
        (field "required_evidence" (arr (of_list (str "kani" ∷ []))) end)))

abbrev pub manifest_value : Value
manifest_value = obj (
    field "invariants" (arr (of_list (obligation "INV-1" ∷ []))) (
      field "witnesses" (arr (of_list (obligation "WIT-1" ∷ [])))
        (field "system_claims" (arr (of_list (system_obligation ∷ []))) end)))

abbrev pub manifest : Manifest
manifest = record {
  required = "INV-1" ∷ "WIT-1" ∷ "SYS-1" ∷ [];
  kinds = ("INV-1", "invariant") ∷ ("WIT-1", "witness") ∷ ("SYS-1", "system_claim") ∷ [];
  evidence = ("SYS-1", "kani" ∷ []) ∷ [];
  depends = ("SYS-1", "INV-1" ∷ []) ∷ [];
}

-- The cohort of the record.
abbrev pub context : Cohort
context = record {
  claim_id = "INV-1";
  record_pass = true;
  producer = true;
  obligation_kind = some "invariant";
}

-- A cohort in which one tool fails and another passes.
abbrev pub slots : List Slot
slots =
    record { index = 0; tool = some "kani"; result = some "FAIL"; evidence_class = none }
    ∷ record { index = 1; tool = some "tla"; result = some "PASS"; evidence_class = none }
    ∷ []

-- A system claim that PASSes, over an invariant that does not.
abbrev pub rows : List Row
rows =
    plain_row "INV-1" View.failed []
    ∷ (record (plain_row "SYS-1" View.passed []) {
      obligation_kind = some "system_claim";
      depends_on = some ("INV-1" ∷ []);
    })
    ∷ []

-- A manifest that declares the record's claim alone.
abbrev pub sole_value : Value
sole_value = obj (field "invariants" (arr (of_list (obligation "INV-1" ∷ []))) end)

abbrev pub sole_manifest : Manifest
sole_manifest = record {
  required = "INV-1" ∷ [];
  kinds = ("INV-1", "invariant") ∷ [];
  evidence = [];
  depends = [];
}
