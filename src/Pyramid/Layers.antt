-- ===== src/Pyramid/Layers.antt =====
-- The layers in `main` of scripts/pyramid_run.py: what each runs and records, one after the other.
use fv.Prelude.{
  ℕ, ◌+◌, ◌-◌, leb, String, ◌<>◌, Bool, false, ◌&&◌, ◌||◌, not, Option, none, some, List, [], ◌∷◌,
  ◌++◌, if◌then◌else◌, is_nil, contains, map,
}
use fv.Json.{ℤ, pos, negsuc, is_zero}
use fv.Text.{words, decimal}
use fv.Gate.Run.{lookup}
use fv.Pyramid.Order.{
  Profile, Status, passed, failed, skipped, not_applicable, not_run, is_failed, plan_layer_order,
  layer_order,
}
use fv.Pyramid.Plan.{Layer}
use fv.Pyramid.Machine.{
  Command, exited, timed_out, launch_failed, Outcome, succeeds, Log, Machine, run_cmd,
  crate_command, command_of, put, run_batch, batch_from, keyed,
}
use fv.Pyramid.Floors.{Report, floors_layer}

-- The command line.
pub record Setup : Type 0 where
  pub profile : Profile
  pub skip : List String
  pub fuzz_seconds : ℤ
  pub plan : Option String
  pub no_plan : Bool

-- The commands so far and the reports of the layers.
pub record State : Type 0 where
  pub log : Log
  pub layers : List (String × Report)

abbrev pub start : State
start = record { log = []; layers = [] }

-- `record`
abbrev pub record_layer : String → Report → State → State
record_layer layer report st = record st { layers = put layer report st.layers }

-- A report without durations.
abbrev pub plain : Status → Report
plain status = record { status = status; durations = [] }

abbrev pub executions_batch : Layer → List (Command × Option String)
executions_batch spec = keyed command_of (λ e. e.evidence_tool) spec.executions

-- The targets that `cargo fuzz list` prints.
abbrev pub targets_of : Outcome → List String
targets_of o = elim (o.ending) [ exited code preview ↦ words preview | _ ↦ [] ]

abbrev pub list_command : Command
list_command = crate_command ("cargo" ∷ "fuzz" ∷ "list" ∷ [])

-- The search for harnesses.
abbrev pub grep_command : Command
grep_command = record {
  argv = "grep" ∷ "-r" ∷ "-l" ∷ "kani::proof" ∷ "src" ∷ [];
  cwd = ".";
  timeout = pos 120;
  env = [];
}

abbrev pub kani_argv : List String
kani_argv = "cargo" ∷ "kani" ∷ []

abbrev pub verus_argv : List String
verus_argv = "cargo" ∷ "verus" ∷ "verify" ∷ []

abbrev pub names : List (String × Layer) → List String
names entries = map (λ (name, spec). name) entries

abbrev pub types_argv : List String
types_argv = "cargo" ∷ "check" ∷ "--quiet" ∷ []

abbrev pub lints_argv : List String
lints_argv = "cargo" ∷ "clippy" ∷ "--quiet" ∷ "--" ∷ "-D" ∷ "warnings" ∷ []

abbrev pub proptests_argv : List String
proptests_argv = "cargo" ∷ "test" ∷ "--quiet" ∷ []

abbrev pub types_failed : State → Bool
types_failed st = elim (lookup "types" st.layers) [ none ↦ false | some r ↦ is_failed r.status ]

-- `str(z)`
abbrev signed : ℤ → String
signed (pos n) = decimal n
signed (negsuc n) = "-" <> decimal (n + 1)

-- `z + n`
abbrev add_seconds : ℕ → ℤ → ℤ
add_seconds n (pos m) = pos (m + n)
add_seconds n (negsuc m) = if leb (m + 1) n then pos (n - (m + 1)) else negsuc (m - n)

abbrev pub fuzz_command : Setup → String → Command
fuzz_command setup target = record {
  argv =
      "cargo"
      ∷ "fuzz"
      ∷ "run"
      ∷ target
      ∷ "--"
      ∷ ("-max_total_time=" <> signed setup.fuzz_seconds)
      ∷ [];
  cwd = ".";
  timeout = add_seconds 300 setup.fuzz_seconds;
  env = [];
}

abbrev pub targets_batch : Setup → List String → List (Command × Option String)
targets_batch setup targets = keyed (fuzz_command setup) (λ t. some t) targets

-- What the closures of `main` and the layers share: the command line, the project and the tools, the
-- layers of the plan and the required layers.
pub record Run : Type 0 where
  pub setup : Setup
  pub machine : Machine
  pub plan : List (String × Layer)
  pub required : List String

module _ (r : Run) where
  -- `plan_layer` for a layer that the plan declares.
  unfoldable pub plan_layer : String → Layer → State → State
  plan_layer layer spec st =
      let b = run_batch r.machine (executions_batch spec) (batch_from st.log) in
      if contains r.setup.skip layer
      then record_layer layer (plain skipped) st
      else record_layer layer
          (record { status = if b.all_passed then passed else failed; durations = b.durations })
          (record st { log = b.log })

  -- `if plan_layer(layer): pass`, or else what is built in.
  unfoldable pub or_planned : String → (State → State) → State → State
  unfolding plan_layer
  or_planned layer builtin st = elim (lookup layer r.plan) [
    | some spec ↦ plan_layer layer spec st
    | none ↦ builtin st
  ]

  -- One command in the crate, whose return code is the layer's status.
  unfoldable pub command_layer : String → List String → State → State
  command_layer layer argv st =
      let (log, o) = run_cmd r.machine st.log (crate_command argv) in
      record_layer layer (plain (if succeeds o then passed else failed)) (record st { log = log })

  -- `"skipped by flag"`, or else the layer.
  unfoldable pub unless_skipped : String → (State → State) → State → State
  unless_skipped layer run st =
      if contains r.setup.skip layer then record_layer layer (plain skipped) st else run st

  -- `cargo_layer`
  unfoldable pub cargo_layer : String → List String → State → State
  unfolding or_planned unless_skipped command_layer
  cargo_layer layer argv st = or_planned layer (unless_skipped layer (command_layer layer argv)) st

  -- The fuzz targets run one after the other; none at all is a failure.
  unfoldable pub run_fuzz : State → State
  unfolding run_cmd
  run_fuzz st =
      let (log, o) = run_cmd r.machine st.log list_command in
      let targets = targets_of o in
      let b = run_batch r.machine (targets_batch r.setup targets) (batch_from log) in
      record_layer "fuzz"
        (record {
          status = if not (is_nil targets) && b.all_passed then passed else failed;
          durations = b.durations;
        })
        (record st { log = b.log })

  unfoldable pub builtin_fuzz : State → State
  unfolding unless_skipped run_fuzz
  builtin_fuzz st =
      if contains r.required "fuzz" || r.machine.has_fuzz
      then unless_skipped "fuzz"
          (λ st.
            if not r.machine.has_fuzz
            then record_layer "fuzz" (plain not_applicable) st
            else if not r.machine.cargo_fuzz
            then record_layer "fuzz" (plain skipped) st
            else run_fuzz st)
          st
      else st

  unfoldable pub run_floors : State → State
  run_floors st = elim r.machine.floors [
    | none ↦ record_layer "floors" (plain failed) st
    | some cfg ↦
        let (log, status) = floors_layer r.machine cfg (lookup "fuzz" st.layers) st.log in
        record_layer "floors" (plain status) (record st { log = log })
  ]

  unfoldable pub builtin_floors : State → State
  unfolding unless_skipped run_floors
  builtin_floors st =
      if contains r.required "floors" then unless_skipped "floors" run_floors st else st

  -- A search that could not run is a failure; one that finds nothing leaves nothing to check.
  unfoldable pub run_kani : State → State
  unfolding run_cmd command_layer
  run_kani st =
      let (log, o) = run_cmd r.machine st.log grep_command in
      let found = record st { log = log } in
      elim (o.ending) [
        | timed_out ↦ record_layer "kani" (plain failed) found
        | launch_failed ↦ record_layer "kani" (plain failed) found
        | exited code preview ↦
            if is_zero code
            then command_layer "kani" kani_argv found
            else record_layer "kani" (plain not_applicable) found
      ]

  unfoldable pub builtin_kani : State → State
  unfolding unless_skipped run_kani
  builtin_kani st =
      if contains r.required "kani"
      then unless_skipped "kani"
          (λ st.
            if not r.machine.cargo_kani
            then record_layer "kani" (plain skipped) st
            else run_kani st)
          st
      else st

  unfoldable pub builtin_verus : State → State
  unfolding unless_skipped command_layer
  builtin_verus st =
      if contains r.required "verus"
      then unless_skipped "verus"
          (λ st.
            if not r.machine.verus
            then record_layer "verus" (plain skipped) st
            else command_layer "verus" verus_argv st)
          st
      else st

  -- The headless runner cannot supply this layer.
  unfoldable pub builtin_lean : State → State
  builtin_lean st =
      if contains r.required "lean" then record_layer "lean" (plain not_run) st else st

  -- The layers that the pyramid does not know, in the order of the plan.
  unfoldable pub custom_layers : List String → State → State
  unfolding or_planned
  custom_layers [] st = st
  custom_layers (layer ∷ rest) st =
      custom_layers rest
        (if contains layer_order layer then st else or_planned layer (λ same. same) st)

  -- `record(layer, "not_run")` for each layer without a status.
  unfoldable pub record_not_run : List String → State → State
  record_not_run [] st = st
  record_not_run (layer ∷ rest) st = record_not_run rest (elim (lookup layer st.layers) [
    | some report ↦ st
    | none ↦ record_layer layer (plain not_run) st
  ])

  -- The layers behind types.
  unfoldable pub layers_behind : State → State
  unfolding cargo_layer or_planned builtin_fuzz builtin_floors builtin_kani builtin_verus
      builtin_lean custom_layers
  layers_behind st =
      let st = cargo_layer "lints" lints_argv st in
      let st = cargo_layer "proptests" proptests_argv st in
      let st = or_planned "fuzz" builtin_fuzz st in
      let st = builtin_floors st in
      let st = or_planned "kani" builtin_kani st in
      let st = or_planned "verus" builtin_verus st in
      let st = or_planned "lean" builtin_lean st in custom_layers (names r.plan) st

  -- A types failure invalidates everything downstream.
  unfoldable pub run_layers : State
  unfolding cargo_layer record_not_run layers_behind
  run_layers =
      let st = cargo_layer "types" types_argv start in
      let behind = layers_behind st in
      let blocked = record_not_run (plan_layer_order (r.required ++ names r.plan)) st in
      if types_failed st then blocked else behind
