-- ===== src/Agreement/Execution.antt =====
-- One entry of a cohort: where the gate finds no defect the dashboard finds none, and both have
-- then seen the same tools and artifacts.
use fv.Gate.Entry.{EntryClean}
use fv.Prelude.{ℕ, String, Bool, not, Option, [], ◌≡◌, arith, when, true, ◌∙◌, refl}
use fv.Json.{Value, Fields, get}
use fv.Gate.Schema.{Repo, not_relative_path}
use fv.Gate.Fields.{nonblank_str}
use fv.Gate.Artifact.{contained_path_defect}
use fv.Gate.Execution.{
  Seen, Cohort, tool_defects, see_tool, class_defects, command_defects, path_defects, see_path,
  result_defects,
}
use fv.Dashboard.Execution.{
  State, judge_tool, judge_class, judge_command, judge_path, text_or_empty, judge_entry,
}

-- The dashboard's state where the gate has seen so much.
abbrev pub state_of : Cohort → Value → Seen → State
state_of c claim_id seen = record {
  claim_id = claim_id;
  producer = c.producer;
  seen_tools = seen.tools;
  seen_paths = seen.paths;
}

module _ (c : Cohort) (claim_id : Value) (seen : Seen) where
  judge_tool_lem :
      (v : Value)
      → tool_defects seen v ≡ []
      → judge_tool (state_of c claim_id seen) v ≡ ([], state_of c claim_id (see_tool seen v))
  unfolding tool_defects judge_tool see_tool
  judge_tool_lem v h = ground arith

  judge_path_lem :
      (path run_id : Value) (index : ℕ)
      → text_or_empty claim_id ≡ c.claim_id
      → path_defects c seen path run_id ≡ []
      → judge_path (state_of c claim_id seen) path run_id index
        ≡ ([], state_of c claim_id (see_path seen path index))
  unfolding path_defects judge_path see_path
  judge_path_lem path run_id index named h = ground arith

judge_class_lem :
    (kind : Option String) (v : Value) (known : Bool)
    → class_defects kind v known ≡ []
    → judge_class kind v known ≡ []
unfolding class_defects judge_class
judge_class_lem kind v known h = ground arith

judge_command_lem : (v : Value) → command_defects v ≡ [] → judge_command v ≡ []
unfolding command_defects judge_command
judge_command_lem v h = ground arith

cwd_lem :
    (repo : Repo) (v : Value)
    → contained_path_defect repo v "cwd" ≡ []
    → when (not (nonblank_str v)) (not_relative_path "cwd" v) ≡ []
unfolding contained_path_defect
cwd_lem repo v h = ground arith

-- The artifacts that were seen do not turn on the tools.
path_defects-see_tool :
    (c : Cohort) (seen : Seen) (v path run_id : Value)
    → path_defects c (see_tool seen v) path run_id ≡ path_defects c seen path run_id
unfolding see_tool path_defects
path_defects-see_tool c seen v path run_id = ground arith

result_known :
    (record_pass known : Bool) (v : Value) → result_defects record_pass v known ≡ [] → known ≡ true
unfolding result_defects
result_known record_pass known v h = ground arith

module _ (c : Cohort) (claim_id : Value) (named : text_or_empty claim_id ≡ c.claim_id) where
  -- The whole entry, whatever the tests on its class and its result said.
  pub judge_entry_lem :
      (repo : Repo) (x : Fields) (seen : Seen) (known judged : Bool) (index : ℕ)
      → EntryClean c repo x seen known judged
      → judge_entry (state_of c claim_id seen) c.obligation_kind x index known judged ≡ (
        [],
        state_of c claim_id
            (see_path (see_tool seen (get "tool" x)) (get "raw_output_path" x) index),
      )
  unfolding judge_entry
  judge_entry_lem repo x seen known judged index e =
      rw
        (
          judge_tool_lem c claim_id seen (get "tool" x) e.tool,
          judge_path_lem c claim_id (see_tool seen (get "tool" x)) (get "raw_output_path" x)
              (get "run_id" x) index named
              (path_defects-see_tool c seen (get "tool" x) _ (get "run_id" x) ∙ e.path),
          judge_class_lem c.obligation_kind (get "evidence_class" x) known e.class,
          judge_command_lem (get "command" x) e.command,
          cwd_lem repo (get "cwd" x) e.cwd,
          e.identity,
          result_known c.record_pass judged (get "result" x) e.result,
          e.run,
          e.marker,
        )
        refl
