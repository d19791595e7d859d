-- ===== src/Pyramid/Run.antt =====
-- `main` of scripts/pyramid_run.py: the choice of the plan, the layers, the verdict and the exit
-- status.
use fv.Prelude.{ℕ, String, not, Option, none, some, List, [], ◌∷◌, if◌then◌else◌, map, concat_map}
use fv.Prelude.Errors.{Result, ok, raise}
use fv.Json.{Value}
use fv.Pyramid.Order.{Status, Verdict, required_layers, aggregate_verdict, exit_code}
use fv.Pyramid.Plan.{PlanError, unresolvable, unreadable, Layer, parse_plan}
use fv.Pyramid.Machine.{Machine}
use fv.Pyramid.Layers.{Setup, Run, State, run_layers}

-- `statuses`
abbrev pub statuses : State → List (String × Status)
statuses st = map {B = String × Status} (λ (layer, report). (layer, report.status)) st.layers

-- The layers with `required: true`.
abbrev pub planned : List (String × Layer) → List String
planned plan = concat_map (λ (name, spec). if spec.required then name ∷ [] else []) plan

abbrev pub required_of : Setup → Machine → List (String × Layer) → List String
required_of setup m plan = required_layers setup.profile m.has_fuzz (planned plan)

abbrev pub run_of : Setup → Machine → List (String × Layer) → Run
run_of setup m plan = record {
  setup = setup;
  machine = m;
  plan = plan;
  required = required_of setup m plan;
}

-- The run of the layers of a plan, and its verdict.
unfoldable pub run_plan : Setup → Machine → List (String × Layer) → State × Verdict
unfolding run_layers
run_plan setup m plan =
    let r = run_of setup m plan in
    let st = run_layers r in (st, aggregate_verdict setup.profile r.required (statuses st))

-- `load_plan`: `none` for a file that cannot be read or is not JSON.
unfoldable pub load_plan : Machine → Option Value → Result PlanError (List (String × Layer))
load_plan m document = elim document [ none ↦ raise unreadable | some v ↦ parse_plan m.root v ]

-- The layers of the plan in effect: none under `--no-plan` and without a plan.
unfoldable pub choose_plan : Setup → Machine → Result PlanError (List (String × Layer))
unfolding load_plan
choose_plan setup m = if setup.no_plan then ok [] else elim setup.plan [
  | some path ↦ load_plan m (m.plan_at path)
  | none ↦ elim m.discovered [ none ↦ ok [] | some document ↦ load_plan m document ]
]

-- How `main` ends: with the verdict of the layers, with ERROR, or with a traceback.
pub data Exit : Type 0 where
  finished : Verdict → Exit
  error crashed : Exit

-- The exit status of the process; that of an uncaught exception is 1.
abbrev pub exit_status : Exit → ℕ
exit_status (finished verdict) = exit_code verdict
exit_status error = 2
exit_status crashed = 1

-- What `main` does with a rejection: it catches a PlanError.
abbrev pub rejected : PlanError → Exit
rejected (unresolvable layer index) = crashed
rejected _ = error

unfoldable pub main : Setup → Machine → Exit
unfolding choose_plan run_plan
main setup m = if not m.cargo_toml then error else elim (choose_plan setup m) [
  | raise e ↦ rejected e
  | ok plan ↦
      if not m.cargo
      then error
      else if not m.report_written
      then error
      else finished (run_plan setup m plan).1
]
