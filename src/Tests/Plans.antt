-- ===== src/Tests/Plans.antt =====
-- A crate with a plan, for the tests of the headless runner.
use fv.Prelude.{String, true, false, none, some, List, [], ◌∷◌, ◌≡◌, refl, ◌==◌, if◌then◌else◌}
use fv.Prelude.Errors.{ok}
use fv.Json.{pos, Value, null, bool, int, str, arr, obj, end, field, of_list, get}
use fv.Pyramid.Order.{tested, proved, plan_layer_order, required_layers, aggregate_verdict}
use fv.Pyramid.Plan.{Root, Execution, Layer, parse_plan, plan_schema}
use fv.Pyramid.Machine.{exited, launch_failed, Floors, Machine, succeeds, run_batch}
use fv.Text.{sorted, evidence_tool_id, blank}
use fv.Pyramid.Floors.{floors_layer}
use fv.Pyramid.Layers.{Setup, types_failed}
use fv.Pyramid.Run.{run_plan, choose_plan, exit_status, main, run_of}
use fv.Pyramid.Course.{after_types}

abbrev pub root : Root
root = record {
  is_absolute = λ d. false;
  climbs = λ d. d == "..";
  resolves = λ d. true;
  inside = λ d. true;
  is_dir = λ d. true;
  relative = λ d. d;
}

abbrev pub execution_value : String → String → Value
execution_value program tool = obj (
    field "argv" (arr (of_list (str program ∷ str "run" ∷ []))) (
      field "cwd" (str ".")
        (field "timeout_seconds" (int (pos 600)) (field "evidence_tool" (str tool) end))))

abbrev pub layer_value : String → String → Value
layer_value program tool = obj (
    field "required" (bool true)
      (field "executions" (arr (of_list (execution_value program tool ∷ []))) end))

-- A plan with a layer that the pyramid does not know and one that it does.
abbrev pub plan_value : Value
plan_value = obj (
    field "schema" (str plan_schema) (
      field "layers"
        (obj (
          field "quint" (layer_value "quint" "quint-run")
            (field "fuzz" (layer_value "honggfuzz" "parser") end)))
        end))

abbrev pub execution_of : String → String → Execution
execution_of program tool = record {
  argv = program ∷ "run" ∷ [];
  cwd = ".";
  timeout_seconds = 600;
  env = [];
  evidence_tool = some tool;
}

abbrev pub layer_of : String → String → Layer
layer_of program tool = record { required = true; executions = execution_of program tool ∷ [] }

abbrev pub plan : List (String × Layer)
plan = ("fuzz", layer_of "honggfuzz" "parser") ∷ ("quint", layer_of "quint" "quint-run") ∷ []

abbrev pub floors : Floors
floors = record {
  matrix = [];
  min_per_module = 1;
  require_property_tests = false;
  surfaces = [];
  min_seconds = 30;
}

-- A machine on which a program fails, and all others succeed.
abbrev pub machine : String → Machine
machine failing = record {
  exec = λ log cmd. record {
    ending = elim (cmd.argv) [
      | [] ↦ launch_failed
      | program ∷ words ↦ exited (if program == failing then pos 101 else pos 0) ""
    ];
    duration = 12;
  };
  root = root;
  cargo_toml = true;
  has_fuzz = false;
  workspace = false;
  cargo = true;
  cargo_fuzz = false;
  cargo_kani = false;
  verus = false;
  sources = none;
  target_exists = λ surface. true;
  floors = some floors;
  discovered = some (some plan_value);
  plan_at = λ path. none;
  report_written = true;
}

abbrev pub setup : Setup
setup = record { profile = tested; skip = []; fuzz_seconds = pos 30; plan = none; no_plan = false }

pub plan_parsed : parse_plan root plan_value ≡ ok plan
unfolding parse_plan sorted get evidence_tool_id plan_layer_order blank
plan_parsed = refl

pub plan_chosen : choose_plan setup (machine "") ≡ ok plan
unfolding choose_plan parse_plan sorted get evidence_tool_id plan_layer_order blank
plan_chosen = refl

pub main_verified : exit_status (main setup (machine "")) ≡ 0
unfolding main parse_plan sorted get evidence_tool_id plan_layer_order blank aggregate_verdict
    required_layers succeeds run_batch floors_layer
main_verified = refl

-- A tool of the plan that fails.
plan_failed : exit_status (main setup (machine "quint")) ≡ 1
unfolding main parse_plan sorted get evidence_tool_id plan_layer_order blank aggregate_verdict
    required_layers succeeds run_batch floors_layer
plan_failed = refl

-- Lean cannot run headless.
proved_incomplete : exit_status (main (record setup { profile = proved }) (machine "")) ≡ 3
unfolding main parse_plan sorted get evidence_tool_id plan_layer_order blank aggregate_verdict
    required_layers succeeds run_batch floors_layer
proved_incomplete = refl

-- A plan that is no object is an ERROR, and not a run without a plan.
broken_plan : exit_status (main setup (record (machine "") { discovered = some (some null) })) ≡ 2
unfolding main parse_plan
broken_plan = refl

pub types_broken : types_failed (after_types (run_of setup (machine "cargo") plan)) ≡ true
unfolding run_plan succeeds
types_broken = refl
