-- ===== src/Pyramid/Surfaces.antt =====
-- The fuzz-time floor at the end of a run: what the report of the fuzz layer says of each surface.
use fv.Prelude.{
  ◌*◌, String, Bool, true, false, ◌&&◌, ◌||◌, not, Option, none, some, List, [], ◌∷◌, ◌≡◌, refl,
  sym, ◌∙◌, ap, subst, arith, is_nil, all, any, contains, leb, if◌then◌else◌, eq_iff, ◌==◌,
  Bool-cases, inl, inr, join_and,
}
use fv.Gate.Run.{lookup}
use fv.Pyramid.Order.{Status, passed, failed, skipped, is_passed, is_failed, layer_order}
use fv.Pyramid.Machine.{Floors, Machine}
use fv.Pyramid.Floors.{
  Report, falls_short, is_skipped, feature_matrix, modules_below_bar, fuzz_surface_check,
  floors_layer,
}
use fv.Pyramid.Layers.{
  Run, State, plain, record_layer, names, run_floors, builtin_floors, layers_behind, unless_skipped,
}
use fv.Pyramid.Effects.{Effect, kept, idle, reports}
use fv.Pyramid.Trail.{lookup-put, Trail, stop, step}
use fv.Pyramid.Baseline.{builtin_floors-Reports}
use fv.Pyramid.Course.{custom, before_floors, behind_floors, behind_floors-Trail}

-- Each surface has a fuzz target, and the fuzz layer passed and ran it for the seconds of the floor.
abbrev pub fuzz_met : Machine → Floors → Option Report → Bool
fuzz_met m cfg fuzz =
    is_nil cfg.surfaces
    || (all m.target_exists cfg.surfaces && (elim fuzz [
      | none ↦ false
      | some report ↦
          is_passed report.status
          && all
              (λ s.
                leb (10 * cfg.min_seconds)
                  (elim (lookup s report.durations) [ none ↦ 0 | some d ↦ d ]))
              cfg.surfaces
    ]))

none_missing :
    (p : String → Bool) (xs : List String) → any (λ s. not (p s)) xs ≡ false → all p xs ≡ true
none_missing p [] h = refl
none_missing p (x ∷ xs) h = ground (arith, none_missing p xs)

-- The check of the surfaces, by whether a target is missing.
abbrev check_of : Bool → (Report → Bool) → Option Report → Status
check_of missing short fuzz = if missing then failed else elim fuzz [
  | none ↦ skipped
  | some report ↦
      if not (is_passed report.status) then skipped else if short report then failed else passed
]

check_parts :
    (missing : Bool) (short : Report → Bool) (fuzz : Option Report)
    → is_failed (check_of missing short fuzz) ≡ false
    → is_skipped (check_of missing short fuzz) ≡ false
    → (missing ≡ false)
      × (report : Report) × (fuzz ≡ some report)
      × (is_passed report.status ≡ true)
      × (short report ≡ false)
check_parts true short fuzz nf ns = absurd (cc)
check_parts false short none nf ns = absurd (cc)
check_parts false short (some report) nf ns =
    let (pass, enough) = by_status (is_passed report.status) (short report) nf ns in
    (refl, report, refl, pass, enough)
  where
    by_status :
        (p b : Bool)
        → is_failed (if not p then skipped else if b then failed else passed) ≡ false
        → is_skipped (if not p then skipped else if b then failed else passed) ≡ false
        → (p ≡ true) × (b ≡ false)
    by_status true false nf ns = (refl, refl)
    by_status true true nf ns = absurd (cc)
    by_status false b nf ns = absurd (cc)

surface_lem :
    (m : Machine) (cfg : Floors) (fuzz : Option Report) (surfaces : List String)
    → is_failed (fuzz_surface_check m (record cfg { surfaces = surfaces }) fuzz) ≡ false
    → is_skipped (fuzz_surface_check m (record cfg { surfaces = surfaces }) fuzz) ≡ false
    → fuzz_met m (record cfg { surfaces = surfaces }) fuzz ≡ true
unfolding fuzz_surface_check
surface_lem m cfg fuzz [] nf ns = refl
surface_lem m cfg fuzz (s ∷ ss) nf ns =
    let (there, report, found, pass, enough) =
      check_parts (any (λ t. not (m.target_exists t)) (s ∷ ss))
        (λ report. any (falls_short report.durations cfg.min_seconds) (s ∷ ss)) fuzz nf ns in
    join_and (none_missing m.target_exists (s ∷ ss) there) (
      rw found (
        join_and pass (
          none_missing
            (λ t.
              leb (10 * cfg.min_seconds)
                (elim (lookup t report.durations) [ none ↦ 0 | some d ↦ d ]))
            (s ∷ ss) enough)))

last_check :
    (a b c : Status)
    → is_passed (
        if any is_failed (a ∷ b ∷ c ∷ [])
        then failed
        else if any is_skipped (a ∷ b ∷ c ∷ [])
        then skipped
        else passed)
      ≡ true
    → (is_failed c ≡ false) × (is_skipped c ≡ false)
last_check a b c h = (ground arith, ground arith)

module _ (r : Run) where
  -- The project's floors, with the fuzz-time floor met by a report.
  pub record Surfaces (fuzz : Option Report) : Type 0 where
    pub cfg : Floors
    pub loaded : r.machine.floors ≡ some cfg
    pub met : fuzz_met r.machine cfg fuzz ≡ true

  -- A report that was just made.
  placed :
      (rep : Report) (st : State) {report : Report}
      → lookup "floors" (record_layer "floors" rep st).layers ≡ some report
      → is_passed report.status ≡ true
      → is_passed rep.status ≡ true
  placed rep st {report} found pass =
      let same = sym (lookup-put "floors" "floors" rep st.layers) ∙ found in cc

  run_floors-Surfaces :
      (st : State) {report : Report}
      → lookup "floors" (run_floors r st).layers ≡ some report
      → is_passed report.status ≡ true
      → Surfaces (lookup "fuzz" st.layers)
  unfolding run_floors floors_layer
  run_floors-Surfaces st {report} found pass = by_config r.machine.floors refl found
    where
      by_config :
          (config : Option Floors)
          → r.machine.floors ≡ config
          → lookup "floors"
              (elim config as (λ _. State) [
                | none ↦ record_layer "floors" (plain failed) st
                | some cfg ↦
                    let (log, status) =
                      floors_layer r.machine cfg (lookup "fuzz" st.layers) st.log in
                    record_layer "floors" (plain status) (record st { log = log })
              ]).layers
            ≡ some report
          → Surfaces (lookup "fuzz" st.layers)
      by_config none e found = absurd (cc (placed (plain failed) st found pass))
      by_config (some cfg) e found =
          let fuzz = lookup "fuzz" st.layers in
          let (log, status) = floors_layer r.machine cfg fuzz st.log in
          let (nf, ns) =
            last_check (feature_matrix r.machine cfg st.log).1 (modules_below_bar r.machine cfg)
              (fuzz_surface_check r.machine cfg fuzz)
              (placed (plain status) (record st { log = log }) found pass) in
          record { cfg = cfg; loaded = e; met = surface_lem r.machine cfg fuzz cfg.surfaces nf ns }

  builtin_floors-Surfaces :
      (st : State) {report : Report}
      → contains r.required "floors" ≡ true
      → lookup "floors" (builtin_floors r st).layers ≡ some report
      → is_passed report.status ≡ true
      → Surfaces (lookup "fuzz" st.layers)
  unfolding builtin_floors unless_skipped
  builtin_floors-Surfaces st {report} required found pass =
      by_flags (contains r.required "floors") (contains r.setup.skip "floors") required found
    where
      by_flags :
          (on skip : Bool)
          → on ≡ true
          → lookup "floors" (
              State.layers (
                if on
                then (if skip then record_layer "floors" (plain skipped) st else run_floors r st)
                else st))
            ≡ some report
          → Surfaces (lookup "fuzz" st.layers)
      by_flags true true e found = absurd (cc (placed (plain skipped) st found pass))
      by_flags true false e found = run_floors-Surfaces st found pass
      by_flags false skip e found = absurd (cc)

  -- A layer leaves the other reports as they are.
  Effect-lookup :
      (layer l : String) (st st' : State)
      → (layer == l) ≡ false
      → Effect r layer st st'
      → lookup l st'.layers ≡ lookup l st.layers
  Effect-lookup layer l st st' other (kept same old) = ap (λ (s : State). lookup l s.layers) same
  Effect-lookup layer l st st' other (idle same off undeclared) =
      ap (λ (s : State). lookup l s.layers) same
  Effect-lookup layer l st st' other (reports own) =
      ap (λ (s : State). lookup l s.layers) own.next
      ∙ (lookup-put layer l own.report st.layers
          ∙ ap (λ b. if b then some own.report else lookup l st.layers) other)

  Trail-lookup :
      (layers : List String) {st st' : State} (l : String)
      → contains layers l ≡ false
      → Trail r layers st st'
      → lookup l st'.layers ≡ lookup l st.layers
  Trail-lookup [] l h (stop same) = ap (λ (s : State). lookup l s.layers) same
  Trail-lookup (layer ∷ layers) l h (step {st = st} {st' = st'} first rest) =
      Trail-lookup layers l (ground arith) rest ∙ Effect-lookup layer l st st' (ground arith) first

  kept_behind :
      (l : String) (st : State)
      → contains layer_order l ≡ true
      → contains ("kani" ∷ "verus" ∷ "lean" ∷ []) l ≡ false
      → lookup l (behind_floors r st).layers ≡ lookup l st.layers
  kept_behind l st known apart =
      Trail-lookup ("kani" ∷ "verus" ∷ "lean" ∷ custom (names r.plan)) l
        (unlisted (custom (names r.plan)) (no_custom (names r.plan))) (behind_floors-Trail r st)
    where
      unlisted :
          (rest : List String)
          → contains rest l ≡ false
          → contains ("kani" ∷ "verus" ∷ "lean" ∷ rest) l ≡ false
      unlisted rest h = ground (arith, apart)

      no_custom : (layers : List String) → contains (custom layers) l ≡ false
      no_custom [] = refl
      no_custom (x ∷ xs) = elim (Bool-cases (x == l)) [
        | inl same ↦
            rw (subst (λ y. contains layer_order y ≡ true) (sym ((eq_iff x l).0 same)) known)
              (no_custom xs)
        | inr other ↦ by_order (contains layer_order x) other (no_custom xs)
      ]
        where
          by_order :
              (b : Bool)
              → (x == l) ≡ false
              → contains (custom xs) l ≡ false
              → contains (if not b then x ∷ custom xs else custom xs) l ≡ false
          by_order true other rest = rest
          by_order false other rest = rw other rest

  -- Where the floors passed at the end of a run that types did not stop, the report of the fuzz layer
  -- at that end meets the fuzz-time floor.
  pub layers_behind-Surfaces :
      (st : State) {report : Report}
      → contains r.required "floors" ≡ true
      → lookup "floors" (layers_behind r st).layers ≡ some report
      → is_passed report.status ≡ true
      → Surfaces (lookup "fuzz" (layers_behind r st).layers)
  unfolding layers_behind
  layers_behind-Surfaces st required found pass =
      let before = before_floors r st in
      let at = builtin_floors r before in
      subst Surfaces
        (sym (
            Effect-lookup "floors" "fuzz" before at refl
              (reports (builtin_floors-Reports r before required)))
          ∙ sym (kept_behind "fuzz" at refl refl))
        (builtin_floors-Surfaces before required (sym (kept_behind "floors" at refl refl) ∙ found)
          pass)
