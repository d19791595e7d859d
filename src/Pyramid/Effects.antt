-- ===== src/Pyramid/Effects.antt =====
-- What each layer of a run does to the state: it adds commands to the log and records one report,
-- which is a PASS only for a reason; or it does nothing, and has its report already or was neither
-- required nor planned.
use mathlib.Core.List.{Memᴰ}
use fv.Prelude.{
  String, Bool, true, false, ◌&&◌, ◌||◌, not, none, some, List, ◌∷◌, ◌≡◌, refl, arith, is_nil,
  contains, inl, inr, Option-cases, if◌then◌else◌,
}
use fv.Json.{is_zero}
use fv.Gate.Run.{lookup}
use fv.Pyramid.Order.{passed, failed, skipped, not_applicable, not_run, is_passed}
use fv.Pyramid.Plan.{Layer}
use fv.Pyramid.Machine.{
  Ending, exited, timed_out, launch_failed, Log, succeeds, run_batch, run_cmd, crate_command,
  command_of, batch_from,
}
use fv.Pyramid.Floors.{Report}
use fv.Pyramid.Layers.{
  Run, State, plain, record_layer, kani_argv, verus_argv, list_command, fuzz_command, grep_command,
  targets_of, executions_batch, targets_batch, plan_layer, or_planned, command_layer,
  unless_skipped, cargo_layer, run_fuzz, builtin_fuzz, run_kani, builtin_kani, builtin_verus,
  builtin_lean,
}
use fv.Pyramid.Support.{
  Extends, Extends-refl, Extends-cons, Extends-trans, mem_later, builtin_commands, by_plan,
  by_command, by_fuzz, Passing, batch-Extends, batch-Succeeded,
}

-- The layer has a report.
abbrev pub recorded : String → State → Bool
recorded layer st = elim (lookup layer st.layers) [ none ↦ false | some report ↦ true ]

module _ (r : Run) where
  pub record Reports (layer : String) (st st' : State) : Type 0 where
    pub report : Report
    pub log : Log
    pub longer : Extends st.log log
    pub next : st' ≡ record_layer layer report (record st { log = log })
    pub reason : is_passed report.status ≡ true → Passing r log layer

  pub data Effect (layer : String) (st st' : State) : Type 0 where
    kept : st' ≡ st → recorded layer st ≡ true → Effect layer st st'
    idle :
        st' ≡ st
        → contains r.required layer ≡ false
        → lookup layer r.plan ≡ none
        → Effect layer st st'
    reports : Reports layer st st' → Effect layer st st'

  -- A report that is no PASS needs no reason.
  pub unpassed :
      (layer : String) (report : Report) (st : State) (log : Log)
      → Extends st.log log
      → is_passed report.status ≡ false
      → Reports layer st (record_layer layer report (record st { log = log }))
  unpassed layer report st log x h = record {
    report = report;
    log = log;
    longer = x;
    next = refl;
    reason = λ pass. cc;
  }

  pub Reports-if :
      (layer : String) (b : Bool) {st x y : State}
      → (b ≡ true → Reports layer st x)
      → (b ≡ false → Reports layer st y)
      → Reports layer st (if b then x else y)
  Reports-if layer true on_true on_false = on_true refl
  Reports-if layer false on_true on_false = on_false refl

  -- A layer that reports from a later log.
  later :
      {layer : String} {st st' : State} {log : Log}
      → Extends st.log log
      → Reports layer (record st { log = log }) st'
      → Reports layer st st'
  later x own = record {
    report = own.report;
    log = own.log;
    longer = Extends-trans x own.longer;
    next = own.next;
    reason = own.reason;
  }

  Effect-if :
      (layer : String) (b : Bool) {st x y : State}
      → (b ≡ true → Reports layer st x)
      → (b ≡ false → Effect layer st y)
      → Effect layer st (if b then x else y)
  Effect-if layer true on_true on_false = reports (on_true refl)
  Effect-if layer false on_true on_false = on_false refl

  -- A status that is a PASS if a test holds.
  pub tested_status : (b : Bool) → is_passed (if b then passed else failed) ≡ true → b ≡ true
  tested_status true h = refl
  tested_status false h = absurd (cc)

  pub plan_layer-Reports :
      (layer : String) (spec : Layer) (st : State)
      → lookup layer r.plan ≡ some spec
      → Reports layer st (plan_layer r layer spec st)
  unfolding plan_layer
  plan_layer-Reports layer spec st declared =
      let b = run_batch r.machine (executions_batch spec) (batch_from st.log) in
      Reports-if layer (contains r.setup.skip layer)
        (λ skip. unpassed layer (plain skipped) st st.log (Extends-refl st.log) refl)
        (λ run. record {
          report = record {
            status = if b.all_passed then passed else failed;
            durations = b.durations;
          };
          log = b.log;
          longer = batch-Extends r.machine (executions_batch spec) (batch_from st.log);
          next = refl;
          reason = λ pass. record {
            unskipped = run;
            supported = by_plan declared (
                batch-Succeeded r.machine command_of (λ e. e.evidence_tool) spec.executions
                  (batch_from st.log) (tested_status b.all_passed pass));
          };
        })

  command_layer-Reports :
      (layer : String) (argv : List String) (st : State)
      → lookup layer r.plan ≡ none
      → contains r.setup.skip layer ≡ false
      → Memᴰ (layer, argv) builtin_commands
      → Reports layer st (command_layer r layer argv st)
  unfolding command_layer run_cmd
  command_layer-Reports layer argv st undeclared run known =
      let cmd = crate_command argv in
      let o = r.machine.exec st.log cmd in
      record {
        report = plain (if succeeds o then passed else failed);
        log = (cmd, o) ∷ st.log;
        longer = Extends-cons (cmd, o) (Extends-refl st.log);
        next = refl;
        reason = λ pass. record {
          unskipped = run;
          supported = by_command undeclared known (record {
            outcome = o;
            ran = Memᴰ.head refl;
            zero = tested_status (succeeds o) pass;
          });
        };
      }

  -- A layer that the flag skips reports that.
  pub unless_skipped-Reports :
      (layer : String) (run : State → State) (st : State)
      → (contains r.setup.skip layer ≡ false → Reports layer st (run st))
      → Reports layer st (unless_skipped r layer run st)
  unfolding unless_skipped
  unless_skipped-Reports layer run st own =
      Reports-if layer (contains r.setup.skip layer)
        (λ skip. unpassed layer (plain skipped) st st.log (Extends-refl st.log) refl) own

  pub or_planned-Effect :
      (layer : String) (builtin : State → State) (st : State)
      → (lookup layer r.plan ≡ none → Effect layer st (builtin st))
      → Effect layer st (or_planned r layer builtin st)
  unfolding or_planned
  or_planned-Effect layer builtin st own = elim (Option-cases (lookup layer r.plan)) [
    | inl undeclared ↦ rw (undeclared, or_planned) (own undeclared)
    | inr (spec, declared) ↦
        rw (declared, or_planned) (reports (plan_layer-Reports layer spec st declared))
  ]

  pub cargo_layer-Effect :
      (layer : String) (argv : List String) (st : State)
      → Memᴰ (layer, argv) builtin_commands
      → Effect layer st (cargo_layer r layer argv st)
  unfolding cargo_layer
  cargo_layer-Effect layer argv st known =
      or_planned-Effect layer (unless_skipped r layer (command_layer r layer argv)) st λ undeclared.
        reports (
          unless_skipped-Reports layer (command_layer r layer argv) st
            λ run. command_layer-Reports layer argv st undeclared run known)

  run_fuzz-Reports :
      (st : State)
      → lookup "fuzz" r.plan ≡ none
      → contains r.setup.skip "fuzz" ≡ false
      → Reports "fuzz" st (run_fuzz r st)
  unfolding run_fuzz run_cmd
  run_fuzz-Reports st undeclared run =
      let o = r.machine.exec st.log list_command in
      let targets = targets_of o in
      let begun = batch_from ((list_command, o) ∷ st.log) in
      let b = run_batch r.machine (targets_batch r.setup targets) begun in
      let longer = batch-Extends r.machine (targets_batch r.setup targets) begun in
      record {
        report = record {
          status = if not (is_nil targets) && b.all_passed then passed else failed;
          durations = b.durations;
        };
        log = b.log;
        longer = Extends-trans (Extends-cons (list_command, o) (Extends-refl st.log)) longer;
        next = refl;
        reason = λ pass.
            let (some_target, ran) =
              both (is_nil targets) b.all_passed
                (tested_status (not (is_nil targets) && b.all_passed) pass) in
            record {
              unskipped = run;
              supported = by_fuzz undeclared o (mem_later longer (Memᴰ.head refl)) some_target (
                  batch-Succeeded r.machine (fuzz_command r.setup) (λ t. some t) targets begun ran);
            };
      }
    where
      both : (a b : Bool) → (not a && b) ≡ true → (a ≡ false) × (b ≡ true)
      both a b h = (ground arith, ground arith)

  run_kani-Reports :
      (st : State)
      → lookup "kani" r.plan ≡ none
      → contains r.setup.skip "kani" ≡ false
      → Reports "kani" st (run_kani r st)
  unfolding run_kani run_cmd
  run_kani-Reports st undeclared run = by_ending (r.machine.exec st.log grep_command).ending
    where
      log : Log
      log = (grep_command, r.machine.exec st.log grep_command) ∷ st.log

      found : State
      found = record st { log = log }

      longer : Extends st.log log
      longer = Extends-cons (grep_command, r.machine.exec st.log grep_command) (Extends-refl st.log)

      by_ending :
          (ending : Ending)
          → Reports "kani" st (elim ending [
            | timed_out ↦ record_layer "kani" (plain failed) found
            | launch_failed ↦ record_layer "kani" (plain failed) found
            | exited code preview ↦
                if is_zero code
                then command_layer r "kani" kani_argv found
                else record_layer "kani" (plain not_applicable) found
          ])
      by_ending timed_out = unpassed "kani" (plain failed) st log longer refl
      by_ending launch_failed = unpassed "kani" (plain failed) st log longer refl
      by_ending (exited code preview) =
          Reports-if "kani" (is_zero code)
            (λ _. later longer (
              command_layer-Reports "kani" kani_argv found undeclared run
                (Memᴰ.tail (Memᴰ.tail (Memᴰ.tail (Memᴰ.head refl))))))
            (λ _. unpassed "kani" (plain not_applicable) st log longer refl)

  pub builtin_fuzz-Effect :
      (st : State) → lookup "fuzz" r.plan ≡ none → Effect "fuzz" st (builtin_fuzz r st)
  unfolding builtin_fuzz
  builtin_fuzz-Effect st undeclared =
      Effect-if "fuzz" (contains r.required "fuzz" || r.machine.has_fuzz)
        (λ on. unless_skipped-Reports "fuzz" by_tool st λ run.
          Reports-if "fuzz" (not r.machine.has_fuzz)
            (λ _. unpassed "fuzz" (plain not_applicable) st st.log (Extends-refl st.log) refl)
            λ _.
              Reports-if "fuzz" (not r.machine.cargo_fuzz)
                (λ _. unpassed "fuzz" (plain skipped) st st.log (Extends-refl st.log) refl)
                (λ _. run_fuzz-Reports st undeclared run))
        (λ off. idle refl (ground arith) undeclared)
    where
      by_tool : State → State
      by_tool st =
          if not r.machine.has_fuzz
          then record_layer "fuzz" (plain not_applicable) st
          else if not r.machine.cargo_fuzz
          then record_layer "fuzz" (plain skipped) st
          else run_fuzz r st

  pub builtin_kani-Effect :
      (st : State) → lookup "kani" r.plan ≡ none → Effect "kani" st (builtin_kani r st)
  unfolding builtin_kani
  builtin_kani-Effect st undeclared =
      Effect-if "kani" (contains r.required "kani")
        (λ on. unless_skipped-Reports "kani" by_tool st λ run.
          Reports-if "kani" (not r.machine.cargo_kani)
            (λ _. unpassed "kani" (plain skipped) st st.log (Extends-refl st.log) refl)
            (λ _. run_kani-Reports st undeclared run))
        (λ off. idle refl off undeclared)
    where
      by_tool : State → State
      by_tool st =
          if not r.machine.cargo_kani then record_layer "kani" (plain skipped) st else run_kani r st

  pub builtin_verus-Effect :
      (st : State) → lookup "verus" r.plan ≡ none → Effect "verus" st (builtin_verus r st)
  unfolding builtin_verus
  builtin_verus-Effect st undeclared =
      Effect-if "verus" (contains r.required "verus")
        (λ on. unless_skipped-Reports "verus" by_tool st λ run.
          Reports-if "verus" (not r.machine.verus)
            (λ _. unpassed "verus" (plain skipped) st st.log (Extends-refl st.log) refl)
            (λ _.
              command_layer-Reports "verus" verus_argv st undeclared run
                (Memᴰ.tail (Memᴰ.tail (Memᴰ.tail (Memᴰ.tail (Memᴰ.head refl)))))))
        (λ off. idle refl off undeclared)
    where
      by_tool : State → State
      by_tool st =
          if not r.machine.verus
          then record_layer "verus" (plain skipped) st
          else command_layer r "verus" verus_argv st

  pub builtin_lean-Effect :
      (st : State) → lookup "lean" r.plan ≡ none → Effect "lean" st (builtin_lean r st)
  unfolding builtin_lean
  builtin_lean-Effect st undeclared =
      Effect-if "lean" (contains r.required "lean")
        (λ on. unpassed "lean" (plain not_run) st st.log (Extends-refl st.log) refl)
        (λ off. idle refl off undeclared)
