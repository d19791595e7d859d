-- ===== src/Pyramid/Baseline.antt =====
-- What the `floors` layer does to the state, and what it rests on when it passes.
use mathlib.Core.List.{Memᴰ}
use fv.Prelude.{
  ◌&&◌, is_nil, filter, Bool-cases, inl, inr, Bool, true, false, Option, none, some, List, [], ◌∷◌,
  ◌≡◌, refl, arith, any, contains, if◌then◌else◌,
}
use fv.Gate.Run.{lookup}
use fv.Pyramid.Order.{Status, passed, failed, skipped, not_applicable, is_passed, is_failed}
use fv.Pyramid.Machine.{
  Log, Outcome, SourceFile, succeeds, Floors, Combo, Machine, run_cmd, crate_command, keyed,
  batch_from,
}
use fv.Pyramid.Floors.{
  below_bar, combo_command, modules_below_bar, feature_matrix, fuzz_surface_check, floors_layer,
  is_skipped,
}
use fv.Pyramid.Layers.{Run, State, plain, record_layer, run_floors, builtin_floors}
use fv.Pyramid.Support.{
  Succeeded, workspace_argv, bar_met, bar_met_by, Extends, Extends-refl, Extends-cons, by_floors,
  batch-Extends, batch-Succeeded,
}
use fv.Pyramid.Effects.{Reports, Reports-if, unless_skipped-Reports, unpassed}

not_failed : (b : Bool) (s : Status) → is_failed (if b then failed else s) ≡ false → b ≡ false
not_failed true s h = absurd (cc)
not_failed false s h = refl

test_holds : (b : Bool) → is_failed (if b then passed else failed) ≡ false → b ≡ true
test_holds true h = refl
test_holds false h = absurd (cc)

if_elim {ℓ κ} :
    {A : Type ℓ} (P : A → Type κ) (b : Bool) {x y : A} → P x → P y → P (if b then x else y)
if_elim P true px py = px
if_elim P false px py = py

-- What an empty matrix runs, by whether there is a workspace.
abbrev whole_check : Log → Outcome → Bool → Log × Status
whole_check log o workspace =
    if workspace
    then ((crate_command workspace_argv, o) ∷ log, if succeeds o then passed else failed)
    else (log, not_applicable)

module _ (m : Machine) (cfg : Floors) where
  matrix-Extends :
      (log : Log) (matrix : List Combo)
      → Extends log (feature_matrix m (record cfg { matrix = matrix }) log).0
  unfolding feature_matrix run_cmd
  matrix-Extends log [] =
      let cmd = crate_command ("cargo" ∷ "check" ∷ "--workspace" ∷ "--quiet" ∷ []) in
      if_elim (λ (found : Log × Status). Extends log found.0) m.workspace
        (Extends-cons (cmd, m.exec log cmd) (Extends-refl log)) (Extends-refl log)
  matrix-Extends log (x ∷ xs) =
      batch-Extends m
        (keyed (λ c. crate_command (combo_command m.workspace c)) (λ c. none) (x ∷ xs))
        (batch_from log)

  matrix-Succeeded :
      (log : Log) (matrix : List Combo)
      → is_failed (feature_matrix m (record cfg { matrix = matrix }) log).1 ≡ false
      → (c : Combo) → Memᴰ c matrix
      → Succeeded
          (feature_matrix m (record cfg { matrix = matrix }) log).0
          (crate_command (combo_command m.workspace c))
  unfolding feature_matrix
  matrix-Succeeded log [] h c at = elim at [ ]
  matrix-Succeeded log (x ∷ xs) h c at =
      batch-Succeeded m (λ c. crate_command (combo_command m.workspace c)) (λ c. none) (x ∷ xs)
        (batch_from log) (test_holds _ h) c at

  workspace-Succeeded :
      (log : Log) (matrix : List Combo)
      → is_failed (feature_matrix m (record cfg { matrix = matrix }) log).1 ≡ false
      → (is_nil matrix && m.workspace) ≡ true
      → Succeeded
          (feature_matrix m (record cfg { matrix = matrix }) log).0
          (crate_command workspace_argv)
  unfolding feature_matrix run_cmd
  workspace-Succeeded log [] h whole =
      let o = m.exec log (crate_command workspace_argv) in checked o m.workspace whole h
    where
      checked :
          (o : Outcome) (b : Bool)
          → b ≡ true
          → is_failed (whole_check log o b).1 ≡ false
          → Succeeded (whole_check log o b).0 (crate_command workspace_argv)
      checked o true whole h = record {
        outcome = o;
        ran = Memᴰ.head refl;
        zero = test_holds (succeeds o) h;
      }
      checked o false whole h = absurd (cc)
  workspace-Succeeded log (x ∷ xs) h whole = absurd (cc)

below_public :
    (cfg : Floors) (files : List SourceFile)
    → any (below_bar cfg) (filter (λ f. f.public_api) files) ≡ false
    → bar_met_by cfg files ≡ true
below_public cfg [] h = refl
below_public cfg (f ∷ files) h = elim (Bool-cases f.public_api) [
  | inl public ↦ let kept = rw public at h in rw public (ground (arith, below_public cfg files))
  | inr private ↦ rw private (below_public cfg files (rw private at h))
]

-- The public modules are not below the bar.
bar_lem :
    (m : Machine) (cfg : Floors)
    → is_failed (modules_below_bar m cfg) ≡ false
    → bar_met m cfg ≡ true
unfolding modules_below_bar
bar_lem m cfg h = by_sources m.sources h
  where
    by_sources :
        (sources : Option (List SourceFile))
        → is_failed (elim sources [
          | none ↦ not_applicable
          | some files ↦
              let public_modules = filter (λ f. f.public_api) files in
              if is_nil public_modules
              then not_applicable
              else if any (below_bar cfg) public_modules
              then failed
              else passed
        ])
          ≡ false
        → (elim sources [ none ↦ true | some files ↦ bar_met_by cfg files ]) ≡ true
    by_sources none h = refl
    by_sources (some files) h =
        below_public cfg files (no_failure (filter (λ f. f.public_api) files) h)
      where
        no_failure :
            (public_modules : List SourceFile)
            → is_failed (
                if is_nil public_modules
                then not_applicable
                else if any (below_bar cfg) public_modules
                then failed
                else passed)
              ≡ false
            → any (below_bar cfg) public_modules ≡ false
        no_failure [] h = refl
        no_failure (f ∷ fs) h = not_failed (any (below_bar cfg) (f ∷ fs)) passed h

no_check_failed :
    (a b c : Status)
    → is_passed (
        if any is_failed (a ∷ b ∷ c ∷ [])
        then failed
        else if any is_skipped (a ∷ b ∷ c ∷ [])
        then skipped
        else passed)
      ≡ true
    → (is_failed a ≡ false) × (is_failed b ≡ false)
no_check_failed a b c h = (ground arith, ground arith)

module _ (r : Run) where
  run_floors-Reports :
      (st : State)
      → contains r.setup.skip "floors" ≡ false
      → Reports r "floors" st (run_floors r st)
  unfolding run_floors floors_layer
  run_floors-Reports st run = by_config r.machine.floors refl
    where
      by_config :
          (config : Option Floors)
          → r.machine.floors ≡ config
          → Reports r "floors" st (elim config [
            | none ↦ record_layer "floors" (plain failed) st
            | some cfg ↦
                let (log, status) = floors_layer r.machine cfg (lookup "fuzz" st.layers) st.log in
                record_layer "floors" (plain status) (record st { log = log })
          ])
      by_config none e = unpassed r "floors" (plain failed) st st.log (Extends-refl st.log) refl
      by_config (some cfg) e =
          let fuzz = lookup "fuzz" st.layers in
          let (log, status) = floors_layer r.machine cfg fuzz st.log in
          record {
            report = plain status;
            log = log;
            longer = matrix-Extends r.machine cfg st.log cfg.matrix;
            next = refl;
            reason = λ pass.
                let (matrix, bar) =
                  no_check_failed (feature_matrix r.machine cfg st.log).1
                    (modules_below_bar r.machine cfg) (fuzz_surface_check r.machine cfg fuzz)
                    pass in
                record {
                  unskipped = run;
                  supported =
                      by_floors cfg e (bar_lem r.machine cfg bar)
                        (workspace-Succeeded r.machine cfg st.log cfg.matrix matrix)
                        (matrix-Succeeded r.machine cfg st.log cfg.matrix matrix);
                };
          }

  pub builtin_floors-Reports :
      (st : State)
      → contains r.required "floors" ≡ true
      → Reports r "floors" st (builtin_floors r st)
  unfolding builtin_floors
  builtin_floors-Reports st wanted =
      Reports-if r "floors" (contains r.required "floors")
        (λ _. unless_skipped-Reports r "floors" (run_floors r) st (run_floors-Reports st))
        (λ off. absurd (cc))
