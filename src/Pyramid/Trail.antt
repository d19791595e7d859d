-- ===== src/Pyramid/Trail.antt =====
-- The layers of a run in their order, and what holds of the state behind them.
use fv.Prelude.{
  map, String, Bool, true, false, ◌||◌, none, some, List, [], ◌∷◌, ◌≡◌, refl, sym, ◌∙◌, ap, subst,
  arith, contains, eq_iff, ◌==◌, if◌then◌else◌, Bool-cases, inl, inr, eq_refl,
}
use fv.Gate.Run.{lookup}
use fv.Pyramid.Order.{Status, not_run, status_of, is_passed}
use fv.Pyramid.Plan.{Layer}
use fv.Pyramid.Machine.{put}
use fv.Pyramid.Floors.{Report}
use fv.Pyramid.Layers.{Run, State, names}
use fv.Pyramid.Support.{Passing, Passing-later}
use fv.Pyramid.Effects.{Reports, Effect, kept, idle, reports, recorded}

pub lookup-put {ℓ} :
    {A : Type ℓ} (j k : String) (v : A) (xs : List (String × A))
    → lookup k (put j v xs) ≡ (if j == k then some v else lookup k xs)
lookup-put j k v [] = refl
lookup-put j k v ((i, w) ∷ rest) = elim (Bool-cases (i == j)) [
  | inl same ↦ rw (same, put) (ground (arith, eq_iff i j, eq_iff i k, eq_iff j k))
  | inr other ↦
      rw (other, put) (ground (arith, eq_iff i j, eq_iff i k, eq_iff j k, lookup-put j k v rest))
]

pub undeclared-names :
    (layer : String) (plan : List (String × Layer))
    → lookup layer plan ≡ none
    → contains (names plan) layer ≡ false
undeclared-names layer [] h = refl
undeclared-names layer ((name, spec) ∷ rest) h = ground (arith, undeclared-names layer rest)

-- The status of a layer is the one in its report.
pub status_of-statuses :
    (layers : List (String × Report)) (l : String)
    → status_of (map {B = String × Status} (λ (layer, report). (layer, report.status)) layers) l
      ≡ elim (lookup l layers) [ none ↦ not_run | some report ↦ report.status ]
unfolding status_of
status_of-statuses [] l = refl
status_of-statuses ((layer, report) ∷ rest) l = ground (arith, status_of-statuses rest l)

module _ (r : Run) where
  -- A layer that is required or planned.
  abbrev pub wanted : String → Bool
  wanted layer = contains r.required layer || contains (names r.plan) layer

  -- Whatever passed, passed for a reason.
  abbrev pub Sound : State → Type 0
  Sound st =
      (layer : String) (report : Report)
      → lookup layer st.layers ≡ some report
      → is_passed report.status ≡ true
      → Passing r st.log layer

  -- The layers take effect one after the other.
  pub data Trail : List String → State → State → Type 0 where
    stop : {st st' : State} → st' ≡ st → Trail [] st st'
    step :
        {layer : String} {layers : List String} {st st' st'' : State}
        → Effect r layer st st'
        → Trail layers st' st''
        → Trail (layer ∷ layers) st st''

  pub reports-recorded :
      (layer l : String) (st st' : State)
      → Reports r layer st st'
      → recorded l st' ≡ (layer == l || recorded l st)
  reports-recorded layer l st st' own =
      subst (λ (s : State). recorded l s ≡ (layer == l || recorded l st)) (sym own.next)
        (ground (arith, lookup-put layer l own.report st.layers))

  reports-Sound : (layer : String) (st st' : State) → Reports r layer st st' → Sound st → Sound st'
  reports-Sound layer st st' own before = subst Sound (sym own.next) λ l report found pass.
      let h = sym (lookup-put layer l own.report st.layers) ∙ found in
      elim (Bool-cases (layer == l)) [
        | inl same ↦
            let e = rw same at h in
            subst (Passing r own.log) ((eq_iff layer l).0 same) (own.reason (cc))
        | inr other ↦ Passing-later r own.longer (before l report (rw other at h) pass)
      ]

  Effect-Sound : (layer : String) (st st' : State) → Effect r layer st st' → Sound st → Sound st'
  Effect-Sound layer st st' (kept same old) before = subst Sound (sym same) before
  Effect-Sound layer st st' (idle same off undeclared) before = subst Sound (sym same) before
  Effect-Sound layer st st' (reports own) before = reports-Sound layer st st' own before

  Effect-recorded :
      (layer l : String) (st st' : State)
      → Effect r layer st st'
      → recorded l st ≡ true
      → recorded l st' ≡ true
  Effect-recorded layer l st st' (kept same old) h = ap (recorded l) same ∙ h
  Effect-recorded layer l st st' (idle same off undeclared) h = ap (recorded l) same ∙ h
  Effect-recorded layer l st st' (reports own) h =
      ground (arith, reports-recorded layer l st st' own)

  Effect-recorded_own :
      (layer : String) (st st' : State)
      → Effect r layer st st'
      → wanted layer ≡ true
      → recorded layer st' ≡ true
  Effect-recorded_own layer st st' (kept same old) h = ap (recorded layer) same ∙ old
  Effect-recorded_own layer st st' (idle same off undeclared) h =
      absurd (ground (arith, undeclared-names layer r.plan undeclared))
  Effect-recorded_own layer st st' (reports own) h =
      ground (arith, reports-recorded layer layer st st' own, eq_refl layer)

  pub Trail-Sound :
      {layers : List String} {st st' : State} → Trail layers st st' → Sound st → Sound st'
  Trail-Sound (stop same) before = subst Sound (sym same) before
  Trail-Sound (step {layer} {st = st} {st' = st'} first rest) before =
      Trail-Sound rest (Effect-Sound layer st st' first before)

  Trail-recorded :
      {layers : List String} {st st' : State} (l : String)
      → Trail layers st st'
      → recorded l st ≡ true
      → recorded l st' ≡ true
  Trail-recorded l (stop same) h = ap (recorded l) same ∙ h
  Trail-recorded l (step {layer} {st = st} {st' = st'} first rest) h =
      Trail-recorded l rest (Effect-recorded layer l st st' first h)

  -- Each layer of the trail that is required or planned has its report.
  pub Trail-recorded_own :
      (layers : List String) {st st' : State} (l : String)
      → Trail layers st st'
      → contains layers l ≡ true
      → wanted l ≡ true
      → recorded l st' ≡ true
  Trail-recorded_own [] l trail here h = absurd (cc)
  Trail-recorded_own (layer ∷ layers) l (step {st = st} {st' = st'} first rest) here h =
      elim (Bool-cases (layer == l)) [
        | inl same ↦
            let e = (eq_iff layer l).0 same in
            Trail-recorded l rest (
              subst (λ x. recorded x st' ≡ true) e
                (Effect-recorded_own layer st st' first (subst (λ x. wanted x ≡ true) (sym e) h)))
        | inr other ↦ Trail-recorded_own layers l rest (ground arith) h
      ]
