-- ===== src/Agreement/Cohort.antt =====
-- The executions of a cohort, one after another, and the bindings derived from the first.
use fv.Gate.Entry.{ExecutionAccepted, if_nil_parts, each_accepted}
use fv.Dashboard.Record.{View, judge_cohort}
use fv.Prelude.{
  ℕ, suc, Option, none, some, List, [], ◌∷◌, ◌≡◌, refl, ap, ◌∙◌, if◌then◌else◌, is_nil, inl, inr,
  ◌⊎◌,
}
use fv.Prelude.Errors.{ok, ◌>>=◌, >>=-eq-ok}
use fv.Json.{Value, Fields, get, as_list}
use fv.Gate.Schema.{Defect, Runtime, Repo}
use fv.Gate.Execution.{Seen, Cohort, nothing_seen}
use fv.Gate.Cohort.{each_execution, derivation_defects, cohort_defects, cohort_context, fields_of}
use fv.Dashboard.Execution.{
  judge_execution, judge_executions, judge_derivation, text_or_empty, execution_state,
}
use fv.Agreement.Execution.{state_of, judge_entry_lem}

module _ (rt : Runtime) (repo : Repo) (c : Cohort) (claim_id : Value)
    (named : text_or_empty claim_id ≡ c.claim_id) where
  execution_lem :
      (v : Value) (index : ℕ) (seen : Seen) {seen' : Seen}
      → ExecutionAccepted rt c repo v index seen seen'
      → judge_execution v index (state_of c claim_id seen) c.obligation_kind
        ≡ ok ([], state_of c claim_id seen')
  unfolding judge_execution
  execution_lem v index seen a =
      rw
        (
          a.is_object,
          judge_execution,
          a.whole,
          a.class_known,
          a.result_judged,
          judge_entry_lem c claim_id named repo a.fields seen a.known a.judged index a.entry,
          a.next,
        )
        refl

  executions_lem :
      (xs : List Value) (index : ℕ) (seen : Seen)
      → each_execution rt c repo xs index seen ≡ ok []
      → judge_executions xs index (state_of c claim_id seen) c.obligation_kind ≡ ok []
  unfolding judge_executions
  executions_lem [] index seen h = refl
  executions_lem (x ∷ xs) index seen h =
      let (seen', first, rest) = each_accepted rt c repo x xs index seen h in
      rw (execution_lem x index seen first, executions_lem xs (suc index) seen' rest) refl

pub derivation_lem :
    (rt : Runtime) (b primary : Fields)
    → derivation_defects rt b primary ≡ []
    → judge_derivation rt b primary ≡ []
unfolding derivation_defects judge_derivation
derivation_lem rt b primary h = h

-- An array is absent, empty, or has a first entry.
pub array_cases :
    (o : Option (List Value))
    → (o ≡ none) ⊎ ((o ≡ some []) ⊎ ((x : Value) × (xs : List Value) × (o ≡ some (x ∷ xs))))
array_cases none = inl refl
array_cases (some []) = inr (inl refl)
array_cases (some (x ∷ xs)) = inr (inr (x, xs, refl))

not_array :
    (rt : Runtime) (repo : Repo) (c : Cohort) (b : Fields)
    → (as_list (get "executions" b) ≡ none) ⊎ (as_list (get "executions" b) ≡ some [])
    → ¬ (cohort_defects rt repo c b ≡ ok [])
unfolding cohort_defects
not_array rt repo c b (inl absent) h = cc (rw (absent, cohort_defects) at h)
not_array rt repo c b (inr empty) h = cc (rw (empty, cohort_defects) at h)

module _ (rt : Runtime) (repo : Repo) (c : Cohort) (b : Fields) (x : Value) (xs : List Value)
    (found : as_list (get "executions" b) ≡ some (x ∷ xs))
    (h : cohort_defects rt repo c b ≡ ok []) where
  -- What a cohort without defects has passed.
  pub cohort_clean :
      (each_execution rt c repo (x ∷ xs) 0 nothing_seen ≡ ok [])
      × (derivation_defects rt b (fields_of x) ≡ [])
  unfolding cohort_defects
  cohort_clean =
      let judged : (each_execution rt c repo (x ∷ xs) 0 nothing_seen >>= λ defects.
      ok (if is_nil defects then derivation_defects rt b (fields_of x) else defects))
          ≡ ok [] =
        rw (found, cohort_defects) at h in
      let (defects, e, h1) =
        >>=-eq-ok (each_execution rt c repo (x ∷ xs) 0 nothing_seen) _ judged in
      let parts = if_nil_parts defects (derivation_defects rt b (fields_of x)) (cc) in
      (e ∙ ap ok parts.0, parts.1)

-- A cohort that the gate accepts has no defect for the dashboard.
pub judge_cohort_lem :
    (rt : Runtime) (repo : Repo) (w : View) (r b : Fields) (before : List Defect)
    → cohort_defects rt repo
        (cohort_context (get "claim_id" r) (get "result" r) b w.obligation_kind)
        b
      ≡ ok []
    → before ≡ []
    → judge_cohort rt w r b before ≡ ok []
unfolding judge_cohort execution_state
judge_cohort_lem rt repo w r b before h empty =
    let c = cohort_context (get "claim_id" r) (get "result" r) b w.obligation_kind in
    elim (array_cases (as_list (get "executions" b))) [
      | inl absent ↦ absurd (not_array rt repo c b (inl absent) h)
      | inr (inl none_listed) ↦ absurd (not_array rt repo c b (inr none_listed) h)
      | inr (inr (x, xs, found)) ↦
          let (each, derived) = cohort_clean rt repo c b x xs found h in
          rw
            (
              found,
              judge_cohort,
              executions_lem rt repo c (get "claim_id" r) refl (x ∷ xs) 0 nothing_seen each,
              empty,
            )
            (ap ok (derivation_lem rt b (fields_of x) derived))
    ]
