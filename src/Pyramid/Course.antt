-- ===== src/Pyramid/Course.antt =====
-- The course of a run: the layers in the order of the pyramid, then the layers that the plan adds;
-- or, behind a types failure, a mark on each layer that has not run.
use mathlib.Core.List.{Memᴰ}
use fv.Prelude.{
  String, Bool, true, false, not, Option, none, some, List, [], ◌∷◌, ◌++◌, ◌≡◌, refl, arith,
  contains, filter, if◌then◌else◌, eq_refl,
}
use fv.Gate.Run.{lookup}
use fv.Pyramid.Order.{layer_order, plan_layer_order, not_run}
use fv.Pyramid.Layers.{
  Run, State, start, plain, names, types_argv, lints_argv, proptests_argv, cargo_layer, or_planned,
  builtin_fuzz, builtin_kani, builtin_verus, builtin_lean, custom_layers, record_not_run,
  layers_behind, types_failed, run_layers, record_layer,
}
use fv.Pyramid.Floors.{Report}
use fv.Pyramid.Support.{Extends-refl}
use fv.Pyramid.Effects.{
  Effect, kept, reports, recorded, unpassed, cargo_layer-Effect, or_planned-Effect,
  builtin_fuzz-Effect, builtin_kani-Effect, builtin_verus-Effect, builtin_lean-Effect,
}
use fv.Pyramid.Baseline.{builtin_floors-Reports}
use fv.Pyramid.Trail.{Trail, stop, step, undeclared-names}

-- The layers of a plan that the pyramid does not know.
abbrev pub custom : List String → List String
custom layers = filter (λ layer. not (contains layer_order layer)) layers

module _ (r : Run) where
  -- The state behind the types layer.
  abbrev pub after_types : State
  after_types = cargo_layer r "types" types_argv start

  blocked-Effect :
      (layer : String) (st : State) (found : Option Report)
      → lookup layer st.layers ≡ found
      → Effect r layer st
          (elim found [ none ↦ record_layer layer (plain not_run) st | some report ↦ st ])
  blocked-Effect layer st none e =
      reports (unpassed r layer (plain not_run) st st.log (Extends-refl st.log) refl)
  blocked-Effect layer st (some report) e = kept refl (rw (e, recorded) refl)

  blocked-Trail :
      (layers : List String) (st : State) → Trail r layers st (record_not_run r layers st)
  unfolding record_not_run
  blocked-Trail [] st = stop refl
  blocked-Trail (layer ∷ rest) st =
      step (blocked-Effect layer st (lookup layer st.layers) refl) (blocked-Trail rest _)

  -- A layer of the plan takes effect.
  declared-Effect :
      (layer : String) (st : State)
      → contains (names r.plan) layer ≡ true
      → Effect r layer st (or_planned r layer (λ same. same) st)
  declared-Effect layer st known =
      or_planned-Effect r layer (λ same. same) st
        λ undeclared. absurd (ground (arith, undeclared-names layer r.plan undeclared))

  custom-step :
      (layer : String) (rest : List String) (st st' : State) (b : Bool)
      → Effect r layer st st'
      → ((s : State) → Trail r (custom rest) s (custom_layers r rest s))
      → Trail r
          (if not b then layer ∷ custom rest else custom rest)
          st
          (custom_layers r rest (if b then st else st'))
  custom-step layer rest st st' true first behind = behind st
  custom-step layer rest st st' false first behind = step first (behind st')

  custom-Trail :
      (layers : List String) (st : State)
      → ((layer : String) → contains layers layer ≡ true → contains (names r.plan) layer ≡ true)
      → Trail r (custom layers) st (custom_layers r layers st)
  unfolding custom_layers
  custom-Trail [] st declared = stop refl
  custom-Trail (layer ∷ rest) st declared =
      custom-step layer rest st (or_planned r layer (λ same. same) st) (contains layer_order layer)
        (declared-Effect layer st (declared layer (ground (arith, eq_refl layer))))
        (λ s. custom-Trail rest s (λ l h. declared l (ground arith)))

  -- The layers behind types up to the fuzz layer, and those behind the floors.
  abbrev pub before_floors : State → State
  before_floors st =
      or_planned r "fuzz" (builtin_fuzz r)
        (cargo_layer r "proptests" proptests_argv (cargo_layer r "lints" lints_argv st))

  abbrev pub behind_floors : State → State
  behind_floors st = custom_layers r (names r.plan) (
      or_planned r "lean" (builtin_lean r)
        (or_planned r "verus" (builtin_verus r) (or_planned r "kani" (builtin_kani r) st)))

  pub behind_floors-Trail :
      (st : State)
      → Trail r ("kani" ∷ "verus" ∷ "lean" ∷ custom (names r.plan)) st (behind_floors st)
  behind_floors-Trail st =
      step (or_planned-Effect r "kani" (builtin_kani r) _ (builtin_kani-Effect r _)) (
        step (or_planned-Effect r "verus" (builtin_verus r) _ (builtin_verus-Effect r _)) (
          step (or_planned-Effect r "lean" (builtin_lean r) _ (builtin_lean-Effect r _))
            (custom-Trail (names r.plan) _ (λ l h. h))))

  behind-Trail :
      (st : State)
      → contains r.required "floors" ≡ true
      → Trail r
          ("lints"
            ∷ "proptests"
            ∷ "fuzz"
            ∷ "floors"
            ∷ "kani"
            ∷ "verus"
            ∷ "lean"
            ∷ custom (names r.plan))
          st
          (layers_behind r st)
  unfolding layers_behind
  behind-Trail st floors =
      step (cargo_layer-Effect r "lints" lints_argv _ (Memᴰ.tail (Memᴰ.head refl))) (
        step
          (cargo_layer-Effect r "proptests" proptests_argv _
            (Memᴰ.tail (Memᴰ.tail (Memᴰ.head refl))))
          (step (or_planned-Effect r "fuzz" (builtin_fuzz r) _ (builtin_fuzz-Effect r _))
            (step (reports (builtin_floors-Reports r _ floors)) (behind_floors-Trail _))))

  pub types-Effect : Effect r "types" start after_types
  types-Effect = cargo_layer-Effect r "types" types_argv start (Memᴰ.head refl)

  -- The layers that a run goes through, by whether types failed.
  abbrev pub course : Bool → List String
  course true = "types" ∷ plan_layer_order (r.required ++ names r.plan)
  course false = layer_order ++ custom (names r.plan)

  pub run-Trail :
      contains r.required "floors" ≡ true
      → Trail r (course (types_failed after_types)) start (run_layers r)
  unfolding run_layers
  run-Trail floors = by_types (types_failed after_types)
    where
      by_types :
          (b : Bool)
          → Trail r (course b) start (
              if b
              then record_not_run r (plan_layer_order (r.required ++ names r.plan)) after_types
              else layers_behind r after_types)
      by_types true =
          step types-Effect
            (blocked-Trail (plan_layer_order (r.required ++ names r.plan)) after_types)
      by_types false = step types-Effect (behind-Trail after_types floors)
