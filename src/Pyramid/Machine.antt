-- ===== src/Pyramid/Machine.antt =====
-- What a run of scripts/pyramid_run.py meets: the commands it launches, the project and the tools,
-- and `run_cmd`. What a command does may depend on every command before it.
use fv.Prelude.{
  ℕ, String, Bool, true, false, ◌&&◌, Option, none, some, List, [], ◌∷◌, ◌==◌, if◌then◌else◌,
}
use fv.Json.{ℤ, pos, negsuc, Value, is_zero}
use fv.Pyramid.Plan.{Root, Execution}

pub record Command : Type 0 where
  pub argv : List String
  -- Relative to the crate.
  pub cwd : String
  -- In seconds.
  pub timeout : ℤ
  pub env : List (String × String)

-- How a call of `subprocess.run` ends: with a return code and the last of its standard output, by the
-- timeout, or not launched. A child whose output is not text, for which the call raises a
-- UnicodeDecodeError that `run_cmd` does not catch, is outside the model: the runner ends with a
-- traceback there.
pub data Ending : Type 0 where
  exited : ℤ → String → Ending
  timed_out launch_failed : Ending

-- The duration counts tenths of a second: the source rounds it to one decimal.
pub record Outcome : Type 0 where
  pub ending : Ending
  pub duration : ℕ

-- `result["returncode"]`: -1 without a return code.
abbrev pub returncode : Ending → ℤ
returncode (exited code preview) = code
returncode timed_out = negsuc 0
returncode launch_failed = negsuc 0

-- `result["returncode"] == 0`
unfoldable pub succeeds : Outcome → Bool
succeeds o = is_zero (returncode o.ending)

-- The commands that have run, the last first, each with its outcome.
abbrev pub Log : Type 0
Log = List (Command × Outcome)

-- A file below src/: whether it has public API, and how many `proptest!` and `quickcheck!` tests
-- and how many `#[test]` functions the patterns find.
pub record SourceFile : Type 0 where
  pub path : String
  pub public_api : Bool
  pub property_tests : ℕ
  pub test_functions : ℕ

pub record Combo : Type 0 where
  pub no_default_features : Bool
  pub features : List String
  pub release : Bool

-- The floors that `load_floors` returns. A bound below 0, which nothing falls short of, is 0.
pub record Floors : Type 0 where
  pub matrix : List Combo
  pub min_per_module : ℕ
  pub require_property_tests : Bool
  pub surfaces : List String
  pub min_seconds : ℕ

pub record Machine : Type 0 where
  pub exec : Log → Command → Outcome
  pub root : Root
  -- Cargo.toml is a file; there is a directory fuzz/; Cargo.toml declares a workspace.
  pub cargo_toml : Bool
  pub has_fuzz : Bool
  pub workspace : Bool
  -- What is on PATH: cargo, cargo-fuzz, cargo-kani, and one of cargo-verus and verus.
  pub cargo : Bool
  pub cargo_fuzz : Bool
  pub cargo_kani : Bool
  pub verus : Bool
  -- The files below src/ in their order, if there is a directory src/.
  pub sources : Option (List SourceFile)
  -- The fuzz target of a surface is a file.
  pub target_exists : String → Bool
  -- `none` where `load_floors` raises an exception that `main` catches.
  pub floors : Option Floors
  -- The plan at the conventional path, if something is there; the plan of a path that `--plan`
  -- names; `none` of the inner option for what cannot be read or is not JSON.
  pub discovered : Option (Option Value)
  pub plan_at : String → Option Value
  -- The report can be written.
  pub report_written : Bool

-- `run_cmd`, for a child whose output is text.
unfoldable pub run_cmd : Machine → Log → Command → Log × Outcome
run_cmd m log cmd = ((cmd, m.exec log cmd) ∷ log, m.exec log cmd)

-- A command in the crate, with the default timeout.
abbrev pub crate_command : List String → Command
crate_command argv = record { argv = argv; cwd = "."; timeout = pos 1800; env = [] }

-- The invocation of an execution of a plan.
abbrev pub command_of : Execution → Command
command_of e = record { argv = e.argv; cwd = e.cwd; timeout = pos e.timeout_seconds; env = e.env }

-- `d[key] = value`
abbrev pub put {ℓ} : {A : Type ℓ} → String → A → List (String × A) → List (String × A)
put key value [] = (key, value) ∷ []
put key value ((k, v) ∷ rest) = elim (k == key) [
  | true ↦ (key, value) ∷ rest
  | false ↦ (k, v) ∷ put key value rest
]

-- What a loop over commands has gathered: the log, whether none failed, and the durations.
pub record Batch : Type 0 where
  pub log : Log
  pub all_passed : Bool
  pub durations : List (String × ℕ)

-- One command of a loop; its duration goes under its key, if it has one.
unfoldable pub run_one : Machine → Command → Option String → Batch → Batch
unfolding run_cmd succeeds
run_one m cmd key b =
    let (log, o) = run_cmd m b.log cmd in
    record {
      log = log;
      all_passed = b.all_passed && succeeds o;
      durations = elim key [
        | none ↦ b.durations
        | some k ↦ if k == "" then b.durations else put k o.duration b.durations
      ];
    }

-- Every command of the list runs.
unfoldable pub run_batch : Machine → List (Command × Option String) → Batch → Batch
unfolding run_one
run_batch m [] b = b
run_batch m ((cmd, key) ∷ rest) b = run_batch m rest (run_one m cmd key b)

-- The commands of a list, each with its key.
abbrev pub keyed :
    {A : Type 0} → (A → Command) → (A → Option String) → List A → List (Command × Option String)
keyed cmd_of key_of [] = []
keyed cmd_of key_of (x ∷ xs) = (cmd_of x, key_of x) ∷ keyed cmd_of key_of xs

abbrev pub batch_from : Log → Batch
batch_from log = record { log = log; all_passed = true; durations = [] }
