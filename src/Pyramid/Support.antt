-- ===== src/Pyramid/Support.antt =====
-- What stands behind a layer that passed: the commands that ran and ended with 0.
use mathlib.Core.List.{Memᴰ, append_assoc}
use mathlib.Core.List.Memᴰ
use fv.Prelude.{
  String, true, false, Option, none, some, List, [], ◌∷◌, ◌++◌, ◌≡◌, refl, sym, ap, subst, arith,
  is_nil, all, contains, ◌+◌, Bool, not, ◌||◌, ◌&&◌, leb, if◌then◌else◌,
}
use fv.Gate.Run.{lookup}
use fv.Pyramid.Plan.{Execution, Layer}
use fv.Pyramid.Machine.{
  Command, Outcome, Log, Floors, SourceFile, Combo, Machine, Batch, succeeds, run_one, run_batch,
  run_cmd, keyed, crate_command, command_of,
}
use fv.Pyramid.Floors.{combo_command}
use fv.Pyramid.Layers.{
  Run, types_argv, lints_argv, proptests_argv, kani_argv, verus_argv, list_command, fuzz_command,
  targets_of,
}

-- The command ran and ended with the return code 0.
pub record Succeeded (log : Log) (cmd : Command) : Type 0 where
  pub outcome : Outcome
  pub ran : Memᴰ (cmd, outcome) log
  pub zero : succeeds outcome ≡ true

-- The second log is the first with commands behind it.
pub record Extends (before after : Log) : Type 0 where
  pub later : Log
  pub whole : after ≡ later ++ before

pub Extends-refl : (log : Log) → Extends log log
Extends-refl log = record { later = []; whole = refl }

pub Extends-cons :
    {before after : Log} (entry : Command × Outcome)
    → Extends before after
    → Extends before (entry ∷ after)
Extends-cons entry x = record { later = entry ∷ x.later; whole = ap (λ log. entry ∷ log) x.whole }

pub Extends-trans : {a b c : Log} → Extends a b → Extends b c → Extends a c
Extends-trans {a} x y = record {
  later = y.later ++ x.later;
  whole = simp (append_assoc, x.whole, y.whole);
}

pub mem_later :
    {before after : Log} {entry : Command × Outcome}
    → Extends before after
    → Memᴰ entry before
    → Memᴰ entry after
mem_later {entry = entry} x m = subst (Memᴰ entry) (sym x.whole) (Memᴰ.append_right x.later m)

pub Succeeded-later :
    {before after : Log} {cmd : Command}
    → Extends before after
    → Succeeded before cmd
    → Succeeded after cmd
Succeeded-later x s = record { outcome = s.outcome; ran = mem_later x s.ran; zero = s.zero }

-- The commands of the layers that run one command.
abbrev pub builtin_commands : List (String × List String)
builtin_commands =
    ("types", types_argv)
    ∷ ("lints", lints_argv)
    ∷ ("proptests", proptests_argv)
    ∷ ("kani", kani_argv)
    ∷ ("verus", verus_argv)
    ∷ []

-- Each file with public API has as many tests as the bar asks for.
abbrev pub bar_met_by : Floors → List SourceFile → Bool
bar_met_by cfg files =
    all
      (λ f.
        not f.public_api
        || leb cfg.min_per_module (
            if cfg.require_property_tests
            then f.property_tests
            else f.property_tests + f.test_functions))
      files

-- They are the files below src/, if there is such a directory.
abbrev pub bar_met : Machine → Floors → Bool
bar_met m cfg = elim m.sources [ none ↦ true | some files ↦ bar_met_by cfg files ]

-- The check of a workspace that declares no matrix.
abbrev pub workspace_argv : List String
workspace_argv = "cargo" ∷ "check" ∷ "--workspace" ∷ "--quiet" ∷ []

module _ (r : Run) where
  -- The evidence that a layer rests on. The targets are those that `cargo fuzz list` printed, whatever
  -- it returned.
  pub data Supported (log : Log) : String → Type 0 where
    by_plan :
        {layer : String} {spec : Layer}
        → lookup layer r.plan ≡ some spec
        → ((e : Execution) → Memᴰ e spec.executions → Succeeded log (command_of e))
        → Supported log layer
    by_command :
        {layer : String} {argv : List String}
        → lookup layer r.plan ≡ none
        → Memᴰ (layer, argv) builtin_commands
        → Succeeded log (crate_command argv)
        → Supported log layer
    by_fuzz :
        lookup "fuzz" r.plan ≡ none
        → (o : Outcome) → Memᴰ (list_command, o) log
        → is_nil (targets_of o) ≡ false
        → ((t : String) → Memᴰ t (targets_of o) → Succeeded log (fuzz_command r.setup t))
        → Supported log "fuzz"
    by_floors :
        (cfg : Floors)
        → r.machine.floors ≡ some cfg
        → bar_met r.machine cfg ≡ true
        → ((is_nil cfg.matrix && r.machine.workspace) ≡ true
            → Succeeded log (crate_command workspace_argv))
        → ((c : Combo)
            → Memᴰ c cfg.matrix
            → Succeeded log (crate_command (combo_command r.machine.workspace c)))
        → Supported log "floors"

  -- A layer that passed for a reason.
  pub record Passing (log : Log) (layer : String) : Type 0 where
    pub unskipped : contains r.setup.skip layer ≡ false
    pub supported : Supported log layer

  Supported-later :
      {before after : Log} {layer : String}
      → Extends before after
      → Supported before layer
      → Supported after layer
  Supported-later x (by_plan declared ran) = by_plan declared (λ e at. Succeeded-later x (ran e at))
  Supported-later x (by_command undeclared known ran) =
      by_command undeclared known (Succeeded-later x ran)
  Supported-later x (by_fuzz undeclared o listed some_target ran) =
      by_fuzz undeclared o (mem_later x listed) some_target (λ t at. Succeeded-later x (ran t at))
  Supported-later x (by_floors cfg loaded bar whole ran) =
      by_floors cfg loaded bar (λ h. Succeeded-later x (whole h))
        (λ c at. Succeeded-later x (ran c at))

  pub Passing-later :
      {before after : Log} {layer : String}
      → Extends before after
      → Passing before layer
      → Passing after layer
  Passing-later x p = record { unskipped = p.unskipped; supported = Supported-later x p.supported }

-- A loop over commands leaves its log longer, and if all went well each command succeeded.
pub batch-Extends :
    (m : Machine) (cmds : List (Command × Option String)) (b : Batch)
    → Extends b.log (run_batch m cmds b).log
unfolding run_batch run_one run_cmd
batch-Extends m [] b = Extends-refl b.log
batch-Extends m ((cmd, key) ∷ rest) b =
    Extends-trans (Extends-cons (cmd, m.exec b.log cmd) (Extends-refl b.log))
      (batch-Extends m rest (run_one m cmd key b))

batch-started :
    (m : Machine) (cmds : List (Command × Option String)) (b : Batch)
    → (run_batch m cmds b).all_passed ≡ true
    → b.all_passed ≡ true
unfolding run_batch run_one run_cmd
batch-started m [] b h = h
batch-started m ((cmd, key) ∷ rest) b h =
    let next = batch-started m rest (run_one m cmd key b) h in ground arith

pub batch-Succeeded :
    {A : Type 0} (m : Machine) (cmd_of : A → Command) (key_of : A → Option String) (xs : List A)
    (b : Batch)
    → (run_batch m (keyed cmd_of key_of xs) b).all_passed ≡ true
    → (x : A) → Memᴰ x xs
    → Succeeded (run_batch m (keyed cmd_of key_of xs) b).log (cmd_of x)
unfolding run_batch run_one run_cmd
batch-Succeeded m cmd_of key_of [] b h x at = elim at [ ]
batch-Succeeded m cmd_of key_of (y ∷ ys) b h x (Memᴰ.head e) =
    let o = m.exec b.log (cmd_of y) in
    let whole = batch-started m (keyed cmd_of key_of ys) (run_one m (cmd_of y) (key_of y) b) h in
    record {
      outcome = o;
      ran =
          mem_later (batch-Extends m (keyed cmd_of key_of ys) (run_one m (cmd_of y) (key_of y) b))
            (Memᴰ.head (ap (λ z. (cmd_of z, o)) e));
      zero = ground arith;
    }
batch-Succeeded m cmd_of key_of (y ∷ ys) b h x (Memᴰ.tail at) =
    batch-Succeeded m cmd_of key_of ys (run_one m (cmd_of y) (key_of y) b) h x at
