-- ===== src/Gate/Execution.antt =====
-- `_execution_defects`: one entry of a cohort, and the tools and artifacts seen so far.
use fv.Prelude.{
  ℕ, String, ◌<>◌, Bool, ◌&&◌, ◌||◌, not, Option, none, some, List, [], ◌∷◌, ◌++◌, ◌==◌,
  if◌then◌else◌, is_nil, all, filter, when, contains, map,
}
use fv.Prelude.Errors.{Result, ok, ◌>>=◌}
use fv.Json.{Value, Fields, get, has, as_str, as_list, as_obj, str_with}
use fv.Text.{evidence_tool_id}
use fv.Gate.Schema.{
  Defect, not_object, missing_field, malformed_tool, duplicate_tool, unknown_class,
  incompatible_class, bad_command, lacks_identity, unknown_result, not_passing, run_id_empty,
  duplicate_artifact, foreign_artifact, marker_empty, evidence_classes, compatibility, results,
  execution_fields, Runtime, Repo, TypeError, in_set,
}
use fv.Gate.Fields.{nonempty_str, nonblank_str, is_text, valid_toolchain}
use fv.Gate.Artifact.{contained_path_defect, read_artifact, pass_artifact_defects}

-- The two sets of `_Cohort` that grow from one execution to the next.
pub record Seen : Type 0 where
  pub tools : List String
  pub paths : List (String × ℕ)

abbrev pub nothing_seen : Seen
nothing_seen = record { tools = []; paths = [] }

-- The fields of `_Cohort` that stay.
pub record Cohort : Type 0 where
  pub claim_id : String
  pub record_pass : Bool
  pub producer : Bool
  pub obligation_kind : Option String

abbrev pub first_index : String → List (String × ℕ) → Option ℕ
first_index p [] = none
first_index p ((q, i) ∷ rest) = if q == p then some i else first_index p rest

-- A tool id that is well formed and new.
unfoldable pub fresh_tool : Seen → String → Bool
fresh_tool seen s = evidence_tool_id s && not (contains seen.tools s)

unfoldable pub tool_defects : Seen → Value → List Defect
tool_defects seen v = elim (as_str v) [
  | none ↦ malformed_tool v ∷ []
  | some s ↦
      if not (evidence_tool_id s)
      then malformed_tool v ∷ []
      else when (contains seen.tools s) (duplicate_tool s)
]

-- `cohort.seen_tools.add(tool)`
unfoldable pub see_tool : Seen → Value → Seen
unfolding fresh_tool
see_tool seen v = elim (as_str v) [
  | none ↦ seen
  | some s ↦ if fresh_tool seen s then record seen { tools = s ∷ seen.tools } else seen
]

-- The class is admissible for the obligation's kind. `known` tells that it is a class at all.
unfoldable pub class_defects : Option String → Value → Bool → List Defect
class_defects kind v known = if not known then unknown_class v ∷ [] else (elim kind [
  | none ↦ []
  | some k ↦ elim (compatibility k) [
    | none ↦ incompatible_class v k ∷ []
    | some compatible ↦ when (not (str_with (contains compatible) v)) (incompatible_class v k)
  ]
])

-- The command is not a nonempty array of nonempty texts.
unfoldable pub command_defects : Value → List Defect
command_defects v = elim (as_list v) [
  | none ↦ bad_command v ∷ []
  | some parts ↦ when (is_nil parts || not (all nonempty_str parts)) (bad_command v)
]

unfoldable pub result_defects : Bool → Value → Bool → List Defect
result_defects record_pass v known =
    if not known
    then unknown_result v ∷ []
    else when (record_pass && not (is_text "PASS" v)) (not_passing v)

-- `PRODUCER_ARTIFACT.format(claim_id=…, run_id=…)`
abbrev pub producer_artifact : String → String → String
producer_artifact claim_id run_id = ".fv/evidence/raw/" <> (claim_id <> ("-" <> (run_id <> ".log")))

unfoldable pub path_defects : Cohort → Seen → Value → Value → List Defect
path_defects c seen path run_id = elim (as_str path) [
  | none ↦ []
  | some p ↦
      if p == ""
      then []
      else (elim (first_index p seen.paths) [ none ↦ [] | some i ↦ duplicate_artifact p i ∷ [] ])
        ++ (elim (as_str run_id) [
          | none ↦ []
          | some r ↦
              when (c.producer && not (p == producer_artifact c.claim_id r))
                (foreign_artifact p (producer_artifact c.claim_id r))
        ])
]

-- `cohort.seen_paths.setdefault(raw_relative, index)`
unfoldable pub see_path : Seen → Value → ℕ → Seen
see_path seen path index = elim (as_str path) [
  | none ↦ seen
  | some p ↦ if p == "" then seen else (elim (first_index p seen.paths) [
    | none ↦ record seen { paths = (p, index) ∷ seen.paths }
    | some _ ↦ seen
  ])
]

-- The rules that read the entry alone, in the order of the source.
unfoldable pub entry_defects : Cohort → Repo → Fields → Seen → Bool → Bool → List Defect
entry_defects c repo x seen known judged =
    tool_defects seen (get "tool" x)
    ++ (class_defects c.obligation_kind (get "evidence_class" x) known
        ++ (command_defects (get "command" x)
            ++ (contained_path_defect repo (get "cwd" x) "cwd"
                ++ (when (not (valid_toolchain (get "toolchain_digests" x))) lacks_identity
                    ++ (result_defects c.record_pass (get "result" x) judged
                        ++ (when (not (nonblank_str (get "run_id" x))) run_id_empty
                            ++ (path_defects c seen (get "raw_output_path" x) (get "run_id" x)
                                ++ when
                                    (has "pass_marker" x
                                      && not (nonempty_str (get "pass_marker" x)))
                                    marker_empty)))))))

-- The artifact of an entry with no defect so far.
unfoldable pub output_defects : Runtime → Repo → Fields → List Defect
output_defects rt repo x =
    let (defects, text) = read_artifact repo (get "raw_output_path" x) (get "raw_output_hash" x) in
    elim text [
      | none ↦ defects
      | some t ↦
          if is_text "PASS" (get "result" x)
          then pass_artifact_defects rt t (get "evidence_class" x) (get "pass_marker" x)
          else []
    ]

abbrev pub judge_present :
    Runtime → Cohort → Repo → Fields → ℕ → Seen → Result TypeError (List Defect × Seen)
judge_present rt c repo x index seen = do
  known ← in_set (get "evidence_class" x) evidence_classes
  judged ← in_set (get "result" x) results
  let defects = entry_defects c repo x seen known judged
  ok (
    (if is_nil defects then output_defects rt repo x else defects),
    see_path (see_tool seen (get "tool" x)) (get "raw_output_path" x) index,
  )

unfoldable pub execution_defects :
    Runtime → Cohort → Repo → Value → ℕ → Seen → Result TypeError (List Defect × Seen)
execution_defects rt c repo execution index seen = elim (as_obj execution) [
  | none ↦ ok (not_object ∷ [], seen)
  | some x ↦
      let missing = filter (λ f. not (has f x)) execution_fields in
      if is_nil missing
      then judge_present rt c repo x index seen
      else ok (map missing_field missing, seen)
]
