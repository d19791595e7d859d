-- ===== src/Gate/Entry.antt =====
-- What it means that the gate finds no defect in an execution: each rule with nothing to report,
-- and what has then been seen.
use fv.Gate.Cohort.{each_execution}
use fv.Prelude.{
  ℕ, String, Bool, true, false, not, ◌&&◌, List, [], ◌∷◌, ◌++◌, ◌≡◌, refl, ap, ◌∙◌, if◌then◌else◌,
  append-eq-nil, is_nil, map, filter, Bool-cases, when, inl, inr, suc,
}
use fv.Prelude.Errors.{Result, ok, >>=-eq-ok}
use fv.Json.{Value, Fields, get, has, obj}
use fv.Gate.Schema.{
  Defect, Runtime, Repo, TypeError, in_set, evidence_classes, results, execution_fields,
  missing_field, lacks_identity, run_id_empty, marker_empty, at,
}
use fv.Gate.Fields.{valid_toolchain, nonblank_str, nonempty_str}
use fv.Gate.Artifact.{contained_path_defect}
use fv.Gate.Execution.{
  Seen, Cohort, tool_defects, see_tool, class_defects, command_defects, result_defects,
  path_defects, see_path, entry_defects, output_defects, judge_present, execution_defects,
}

pub record EntryClean (c : Cohort) (repo : Repo) (x : Fields) (seen : Seen) (known judged : Bool)
    : Type 0 where
  pub tool : tool_defects seen (get "tool" x) ≡ []
  pub class : class_defects c.obligation_kind (get "evidence_class" x) known ≡ []
  pub command : command_defects (get "command" x) ≡ []
  pub cwd : contained_path_defect repo (get "cwd" x) "cwd" ≡ []
  pub identity : when (not (valid_toolchain (get "toolchain_digests" x))) lacks_identity ≡ []
  pub result : result_defects c.record_pass (get "result" x) judged ≡ []
  pub run : when (not (nonblank_str (get "run_id" x))) run_id_empty ≡ []
  pub path : path_defects c seen (get "raw_output_path" x) (get "run_id" x) ≡ []
  pub marker :
      when (has "pass_marker" x && not (nonempty_str (get "pass_marker" x))) marker_empty ≡ []

entry_clean :
    (c : Cohort) (repo : Repo) (x : Fields) (seen : Seen) (known judged : Bool)
    → entry_defects c repo x seen known judged ≡ []
    → EntryClean c repo x seen known judged
unfolding entry_defects
entry_clean c repo x seen known judged h =
    let (tool, h1) = append-eq-nil (tool_defects seen (get "tool" x)) _ h in
    let (class, h2) =
      append-eq-nil (class_defects c.obligation_kind (get "evidence_class" x) known) _ h1 in
    let (command, h3) = append-eq-nil (command_defects (get "command" x)) _ h2 in
    let (cwd, h4) = append-eq-nil (contained_path_defect repo (get "cwd" x) "cwd") _ h3 in
    let (identity, h5) =
      append-eq-nil (when (not (valid_toolchain (get "toolchain_digests" x))) lacks_identity) _
        h4 in
    let (result, h6) = append-eq-nil (result_defects c.record_pass (get "result" x) judged) _ h5 in
    let (run, h7) = append-eq-nil (when (not (nonblank_str (get "run_id" x))) run_id_empty) _ h6 in
    let (path, marker) =
      append-eq-nil (path_defects c seen (get "raw_output_path" x) (get "run_id" x)) _ h7 in
    record {
      tool = tool;
      class = class;
      command = command;
      cwd = cwd;
      identity = identity;
      result = result;
      run = run;
      path = path;
      marker = marker;
    }

pub if_nil_parts {ℓ} :
    {A : Type ℓ} (d o : List A) → (if is_nil d then o else d) ≡ [] → (d ≡ []) × (o ≡ [])
if_nil_parts [] o h = (refl, h)
if_nil_parts (x ∷ d) o h = (h, absurd (cc))

-- An execution that the gate accepts, taken apart.
pub record ExecutionAccepted (rt : Runtime) (c : Cohort) (repo : Repo) (v : Value) (index : ℕ)
    (seen seen' : Seen) : Type 0 where
  pub fields : Fields
  pub known : Bool
  pub judged : Bool
  pub is_object : v ≡ obj fields
  pub whole : is_nil (filter (λ f. not (has f fields)) execution_fields) ≡ true
  pub class_known : in_set (get "evidence_class" fields) evidence_classes ≡ ok known
  pub result_judged : in_set (get "result" fields) results ≡ ok judged
  pub entry : EntryClean c repo fields seen known judged
  pub output : output_defects rt repo fields ≡ []
  pub next :
      seen' ≡ see_path (see_tool seen (get "tool" fields)) (get "raw_output_path" fields) index

fields_missing :
    {seen seen' : Seen} (missing : List String)
    → is_nil missing ≡ false
    → ¬ (
        ◌≡◌ {A = Result TypeError (List Defect × Seen)}
          (ok (map missing_field missing, seen))
          (ok ([], seen')))
fields_missing [] some_field h = cc
fields_missing (f ∷ fs) some_field h = cc

ok_parts :
    {d : List Defect} {s t : Seen}
    → ◌≡◌ {A = Result TypeError (List Defect × Seen)} (ok (d, s)) (ok ([], t))
    → (d ≡ []) × (t ≡ s)
ok_parts h = (cc, cc)

module _ (rt : Runtime) (c : Cohort) (repo : Repo) where
  pub execution_accepted :
      (v : Value) (index : ℕ) (seen : Seen) {seen' : Seen}
      → execution_defects rt c repo v index seen ≡ ok ([], seen')
      → ExecutionAccepted rt c repo v index seen seen'
  unfolding execution_defects
  execution_accepted (obj x) index seen {seen'} h =
      elim (Bool-cases (is_nil (filter (λ f. not (has f x)) execution_fields))) [
        | inl whole ↦
            let present : judge_present rt c repo x index seen ≡ ok ([], seen') = rw whole at h in
            let (known, k, h1) =
              >>=-eq-ok (in_set (get "evidence_class" x) evidence_classes) _ present in
            let (judged, j, h2) = >>=-eq-ok (in_set (get "result" x) results) _ h1 in
            let (clean, next) = ok_parts h2 in
            let (entry, output) =
              if_nil_parts (entry_defects c repo x seen known judged) (output_defects rt repo x)
                clean in
            record {
              fields = x;
              known = known;
              judged = judged;
              is_object = refl;
              whole = whole;
              class_known = k;
              result_judged = j;
              entry = entry_clean c repo x seen known judged entry;
              output = output;
              next = next;
            }
        | inr partial ↦ absurd (fields_missing _ partial (rw partial at h))
      ]
  execution_accepted _ index seen h = absurd (cc)

labelled_nil :
    (index : ℕ) (defects rest : List Defect)
    → map (at index) defects ++ rest ≡ []
    → (defects ≡ []) × (rest ≡ [])
labelled_nil index [] rest h = (refl, h)
labelled_nil index (d ∷ ds) rest h = absurd (cc)

-- The first of some executions that the gate accepts, and the rest.
pub each_accepted :
    (rt : Runtime) (c : Cohort) (repo : Repo) (x : Value) (xs : List Value) (index : ℕ)
    (seen : Seen)
    → each_execution rt c repo (x ∷ xs) index seen ≡ ok []
    → (seen' : Seen) × ExecutionAccepted rt c repo x index seen seen'
      × (each_execution rt c repo xs (suc index) seen' ≡ ok [])
unfolding each_execution
each_accepted rt c repo x xs index seen h =
    let ((defects, seen'), e, h1) = >>=-eq-ok (execution_defects rt c repo x index seen) _ h in
    let (rest, e', h2) = >>=-eq-ok (each_execution rt c repo xs (suc index) seen') _ h1 in
    let (clean, done) = labelled_nil index defects rest (cc) in
    (
      seen',
      execution_accepted rt c repo x index seen (e ∙ ap (λ d. ok (d, seen')) clean),
      e' ∙ ap ok done,
    )
