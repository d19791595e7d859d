-- ===== src/Agreement/Record.antt =====
-- Whole records: what the gate accepts the dashboard accepts.
use fv.Gate.Accepted.{not-nil_snoc, if_ok_parts, fields_missing, bound_clean}
use fv.Prelude.{
  String, Bool, true, false, not, Option, some, [], ◌++◌, ◌≡◌, refl, ap, ◌∙◌, arith, if◌then◌else◌,
  append-eq-nil, is_nil, filter, Bool-cases, Option-cases, concat_map, inl, inr, concat_map-eq-nil,
}
use fv.Prelude.Errors.{ok, >>=-eq-ok, ok-injective}
use fv.Json.{Value, Fields, get, has, as_obj, obj}
use fv.Gate.Schema.{Runtime, Repo, in_set, evidence_classes, results, top_fields}
use fv.Gate.Fields.{
  dirty_snapshot_defects, manifest_binding_defects, v3_producer_defects, is_schema_v3,
  waiver_defects, asserted_field_defects, producer_identity_defects,
}
use fv.Gate.Cohort.{cohort_context, cohort_defects}
use fv.Gate.Record.{
  Expectations, head_defects, binding_defect, shape_defects, compatibility_defects,
  intent_path_defects, repository_defects, bound_defects, validate_present, validate_record,
  expected_fields, validate_judged,
}
use fv.Dashboard.Record.{
  View, judge_head, judge_binding, judge_shape, judge_kind, judge_bound, judge_present,
  judge_record, judge_judged,
}
use fv.Agreement.Cohort.{judge_cohort_lem}

-- The dashboard's arguments in a run with the gate's expectations.
abbrev pub view_of : Expectations → View
view_of e = record {
  obligation_kind = e.obligation_kind;
  required_targets = e.required_targets;
  manifest = e.manifest;
}

judge_binding_lem : (b : Fields) (f : String) → judge_binding b f ≡ binding_defect b f
unfolding judge_binding binding_defect
judge_binding_lem b f = ground arith

judge_kind_lem :
    (kind : Option String) (klass : Value)
    → compatibility_defects kind klass ≡ []
    → judge_kind kind klass ≡ []
unfolding judge_kind compatibility_defects
judge_kind_lem kind klass h = ground arith

judge_head_lem :
    (r : Fields) (known judged : Bool)
    → head_defects r known judged ≡ []
    → waiver_defects (get "waiver" r) ≡ []
    → judge_head r known judged ≡ []
unfolding head_defects judge_head
judge_head_lem r known judged h excused = ground arith

-- The two programs apply the same rules to the fields and the bindings, in different orders.
judge_shape_lem :
    (r b : Fields) (known judged schema_v3 : Bool)
    → head_defects r known judged ++ shape_defects r b schema_v3 ≡ []
    → judge_head r known judged ++ judge_shape b schema_v3 ≡ []
unfolding shape_defects judge_shape
judge_shape_lem r b known judged schema_v3 h =
    let fields = expected_fields schema_v3 in
    let (head, h1) = append-eq-nil (head_defects r known judged) _ h in
    let (bindings, h2) = append-eq-nil (concat_map (binding_defect b) fields) _ h1 in
    let (identity, h3) = append-eq-nil (producer_identity_defects b) _ h2 in
    let (asserted, waiver) = append-eq-nil (asserted_field_defects b schema_v3) _ h3 in
    rw
      (
        judge_head_lem r known judged head waiver,
        concat_map-eq-nil (binding_defect b) (judge_binding b) fields
            (λ f clean. judge_binding_lem b f ∙ clean) bindings,
        asserted,
        identity,
      )
      refl

module _ (rt : Runtime) (repo : Repo) (e : Expectations) (rooted : e.repo ≡ some repo) where
  -- What the rules on the repository found nothing wrong with.
  pub cohort_passed :
      (r b : Fields)
      → repository_defects rt e r b true ≡ ok []
      → cohort_defects rt repo
          (cohort_context (get "claim_id" r) (get "result" r) b e.obligation_kind)
          b
        ≡ ok []
  unfolding repository_defects
  cohort_passed r b h =
      let c = cohort_context (get "claim_id" r) (get "result" r) b e.obligation_kind in
      let (cohort, q, h1) =
        >>=-eq-ok (cohort_defects rt repo c b) _ (rw (rooted, repository_defects) at h) in
      let path = intent_path_defects repo e.intent_path (get "intent_path" b) in
      q ∙ ap ok (append-eq-nil path cohort (cc)).1

  finish :
      (r b : Fields) (schema_v3 : Bool)
      → dirty_snapshot_defects (get "result" r) b ≡ []
      → manifest_binding_defects b e.manifest ≡ []
      → compatibility_defects e.obligation_kind (get "evidence_class" r) ≡ []
      → (if schema_v3 then v3_producer_defects b e.required_targets else []) ≡ []
      → repository_defects rt e r b schema_v3 ≡ ok []
      → judge_bound rt (view_of e) r b schema_v3 ≡ ok []
  unfolding judge_bound
  finish r b true dirty manifest kind producer repository =
      judge_cohort_lem rt repo (view_of e) r b _ (cohort_passed r b repository) (
        rw
          (
            dirty,
            manifest,
            producer,
            judge_kind_lem e.obligation_kind (get "evidence_class" r) kind,
          )
          refl)
  finish r b false dirty manifest kind producer repository =
      rw (dirty, manifest, judge_kind_lem e.obligation_kind (get "evidence_class" r) kind) refl

  judge_bound_lem :
      (r b : Fields) (schema_v3 : Bool)
      → bound_defects rt e r b schema_v3 ≡ ok []
      → judge_bound rt (view_of e) r b schema_v3 ≡ ok []
  judge_bound_lem r b schema_v3 h =
      let clean = bound_clean rt e r b schema_v3 h in
      finish r b schema_v3 clean.dirty clean.manifest clean.kind clean.producer clean.repository

  judge_judged_lem :
      (r : Fields) (known judged : Bool)
      → validate_judged rt e r known judged ≡ ok []
      → judge_judged rt (view_of e) r known judged ≡ ok []
  unfolding validate_judged judge_judged
  judge_judged_lem r known judged h = elim (Option-cases (as_obj (get "bindings" r))) [
    | inl absent ↦ absurd (not-nil_snoc _ _ (ok-injective (rw (absent, validate_judged) at h)))
    | inr (b, found) ↦
        let v3 = is_schema_v3 (get "bindings" r) in
        let shape = head_defects r known judged ++ shape_defects r b v3 in
        let (clean, bound) =
          if_ok_parts shape (bound_defects rt e r b v3) (rw (found, validate_judged) at h) in
        rw (found, judge_judged, judge_shape_lem r b known judged v3 clean)
          (judge_bound_lem r b v3 bound)
  ]

  judge_present_lem :
      (r : Fields) → validate_present rt e r ≡ ok [] → judge_present rt (view_of e) r ≡ ok []
  unfolding validate_present judge_present
  judge_present_lem r h =
      let (known, k, h1) = >>=-eq-ok (in_set (get "evidence_class" r) evidence_classes) _ h in
      let (judged, j, h2) = >>=-eq-ok (in_set (get "result" r) results) _ h1 in
      rw (k, j) (judge_judged_lem r known judged h2)

  -- A record in which the gate, given a repository, finds no defect has none for the dashboard
  -- either, if both are given the same obligation kind, manifest hash and set of targets.
  pub judge_record-validate_record :
      (record_read : Value)
      → validate_record rt e record_read ≡ ok []
      → judge_record rt (view_of e) record_read ≡ ok []
  unfolding validate_record judge_record
  judge_record-validate_record (obj r) h =
      elim (Bool-cases (is_nil (filter (λ f. not (has f r)) top_fields))) [
        | inl whole ↦ rw whole (judge_present_lem r (rw whole at h))
        | inr partial ↦ absurd (fields_missing _ partial (rw partial at h))
      ]
  judge_record-validate_record _ h = cc
