-- ===== src/Tests/Runner.antt =====
-- Each theorem on the headless runner at a concrete input.
use fv.Prelude.{true, false, ◌&&◌, ◌||◌, some, String, [], ◌∷◌, ◌≡◌, refl, contains, ◌==◌}
use fv.Gate.Run.{lookup}
use fv.Json.{Fields, as_obj, get}
use fv.Text.{sorted}
use fv.Pyramid.Order.{tested, failed_run, not_run, required_layers, profile_layers}
use fv.Pyramid.Layers.{names, plain}
use fv.Pyramid.Run.{required_of, run_of, run_plan}
use fv.Pyramid.Surfaces.{Surfaces}
use fv.Pyramid.Effects.{recorded}
use fv.Pyramid.Course.{after_types}
use fv.Pyramid.Complete.{run_plan-recorded}
use fv.Pyramid.Blocked.{run_plan-blocked}
use fv.Pyramid.Required.{contains-required_layers}
use fv.Pyramid.Parsed.{WellFormed, parse_plan-WellFormed}
use fv.Tests.Plans.{setup, machine, plan, plan_value, root, plan_parsed, types_broken}

run_plan-recorded_example : recorded "quint" (run_plan setup (machine "cargo") plan).0 ≡ true
unfolding required_layers sorted
run_plan-recorded_example = run_plan-recorded setup (machine "cargo") plan "quint" refl

run_plan-blocked_example :
    ((run_plan setup (machine "cargo") plan).1 ≡ failed_run)
    × ((run_plan setup (machine "cargo") plan).0.log
        ≡ (after_types (run_of setup (machine "cargo") plan)).log)
    × ((l : String)
        → (contains (required_of setup (machine "cargo") plan) l || contains (names plan) l) ≡ true
        → ("types" == l) ≡ false
        → lookup l (run_plan setup (machine "cargo") plan).0.layers ≡ some (plain not_run))
run_plan-blocked_example = run_plan-blocked setup (machine "cargo") plan types_broken

contains-required_layers_example : contains (required_layers tested true ("quint" ∷ [])) "fuzz" ≡ (
    (contains (profile_layers tested) "fuzz" || true && "fuzz" == "fuzz")
    || contains ("quint" ∷ []) "fuzz")
contains-required_layers_example = contains-required_layers tested true ("quint" ∷ []) "fuzz"

parse_plan-WellFormed_example :
    (d declared : Fields) × (as_obj plan_value ≡ some d)
    × (as_obj (get "layers" d) ≡ some declared)
    × WellFormed declared plan
parse_plan-WellFormed_example = parse_plan-WellFormed root plan_value plan_parsed
