-- ===== src/Gate/Accepted.antt =====
-- What it means that the gate finds no defect in a record: the parts of the record that it read,
-- and each rule with nothing to report.
use fv.Prelude.{
  String, Bool, true, false, not, ◌&&◌, some, List, [], ◌∷◌, ◌++◌, ◌≡◌, refl, sym, ap, ap₂, ◌∙◌,
  arith, if◌then◌else◌, append-eq-nil, is_nil, map, filter, Bool-cases, Option-cases, inl, inr,
}
use fv.Prelude.Errors.{Result, ok, >>=-eq-ok, ok-injective}
use fv.Json.{Value, Fields, get, has, as_obj, obj}
use fv.Gate.Schema.{
  Defect, Runtime, TypeError, in_set, evidence_classes, results, top_fields, missing_field,
}
use fv.Gate.Fields.{
  dirty_snapshot_defects, manifest_binding_defects, v3_producer_defects, is_schema_v3, is_text,
}
use fv.Gate.Cohort.{coverage_defects}
use fv.Gate.Record.{
  Expectations, head_defects, shape_defects, compatibility_defects, snapshot_defects,
  intent_defects, repository_defects, bound_defects, validate_judged, validate_present,
  validate_record,
}

-- The rules on a record of sound shape, each with nothing to report.
pub record BoundClean (rt : Runtime) (e : Expectations) (r b : Fields) (schema_v3 : Bool)
    : Type 0 where
  pub dirty : dirty_snapshot_defects (get "result" r) b ≡ []
  pub snapshot : snapshot_defects e.snapshot e.snapshot_exact (get "source_snapshot" b) ≡ []
  pub intent : intent_defects e.intent (get "intent_hash" b) ≡ []
  pub manifest : manifest_binding_defects b e.manifest ≡ []
  pub kind : compatibility_defects e.obligation_kind (get "evidence_class" r) ≡ []
  pub producer : (if schema_v3 then v3_producer_defects b e.required_targets else []) ≡ []
  pub repository : repository_defects rt e r b schema_v3 ≡ ok []
  pub coverage :
      (if is_text "PASS" (get "result" r) && not (is_nil e.required_evidence)
        then coverage_defects b e.required_evidence
        else [])
      ≡ []

pub bound_clean :
    (rt : Runtime) (e : Expectations) (r b : Fields) (schema_v3 : Bool)
    → bound_defects rt e r b schema_v3 ≡ ok []
    → BoundClean rt e r b schema_v3
unfolding bound_defects
bound_clean rt e r b schema_v3 h =
    let (repository, q, whole) = >>=-eq-ok (repository_defects rt e r b schema_v3) _ h in
    let (dirty, h1) =
      append-eq-nil (dirty_snapshot_defects (get "result" r) b) _ (ok-injective whole) in
    let (snapshot, h2) =
      append-eq-nil (snapshot_defects e.snapshot e.snapshot_exact (get "source_snapshot" b)) _ h1 in
    let (intent, h3) = append-eq-nil (intent_defects e.intent (get "intent_hash" b)) _ h2 in
    let (manifest, h4) = append-eq-nil (manifest_binding_defects b e.manifest) _ h3 in
    let (kind, h5) =
      append-eq-nil (compatibility_defects e.obligation_kind (get "evidence_class" r)) _ h4 in
    let (producer, h6) =
      append-eq-nil (if schema_v3 then v3_producer_defects b e.required_targets else []) _ h5 in
    let (clean, covered) = append-eq-nil repository _ h6 in
    record {
      dirty = dirty;
      snapshot = snapshot;
      intent = intent;
      manifest = manifest;
      kind = kind;
      producer = producer;
      repository = q ∙ ap ok clean;
      coverage = covered;
    }

-- A record that the gate accepts, taken apart.
pub record Accepted (rt : Runtime) (e : Expectations) (v : Value) : Type 0 where
  pub fields : Fields
  pub bindings : Fields
  pub is_record : v ≡ obj fields
  pub has_bindings : as_obj (get "bindings" fields) ≡ some bindings
  pub known : in_set (get "evidence_class" fields) evidence_classes ≡ ok true
  pub judged : in_set (get "result" fields) results ≡ ok true
  pub heads : head_defects fields true true ≡ []
  pub shape : shape_defects fields bindings (is_schema_v3 (get "bindings" fields)) ≡ []
  pub bound : BoundClean rt e fields bindings (is_schema_v3 (get "bindings" fields))

pub not-nil_snoc : (ds : List Defect) (d : Defect) → ¬ (ds ++ d ∷ [] ≡ [])
not-nil_snoc [] d h = cc
not-nil_snoc (e ∷ ds) d h = cc

pub if_ok_parts :
    (d : List Defect) (m : Result TypeError (List Defect))
    → (if is_nil d then m else ok d) ≡ ok []
    → (d ≡ []) × (m ≡ ok [])
if_ok_parts [] m h = (refl, h)
if_ok_parts (x ∷ d) m h = absurd (cc)

pub fields_missing :
    (missing : List String)
    → is_nil missing ≡ false
    → ¬ (◌≡◌ {A = Result TypeError (List Defect)} (ok (map missing_field missing)) (ok []))
fields_missing [] some_field h = cc
fields_missing (f ∷ fs) some_field h = cc

-- Sound heads mean that the class and the result are of their sets.
heads_known :
    (r : Fields) (known judged : Bool)
    → head_defects r known judged ≡ []
    → (known ≡ true) × (judged ≡ true)
unfolding head_defects
heads_known r known judged h = ground arith

module _ (rt : Runtime) (e : Expectations) where
  judged-Accepted :
      (r : Fields) (known judged : Bool)
      → in_set (get "evidence_class" r) evidence_classes ≡ ok known
      → in_set (get "result" r) results ≡ ok judged
      → validate_judged rt e r known judged ≡ ok []
      → Accepted rt e (obj r)
  unfolding validate_judged
  judged-Accepted r known judged k j h = elim (Option-cases (as_obj (get "bindings" r))) [
    | inl absent ↦ absurd (not-nil_snoc _ _ (ok-injective (rw (absent, validate_judged) at h)))
    | inr (b, found) ↦
        let v3 = is_schema_v3 (get "bindings" r) in
        let (clean, bound) =
          if_ok_parts (head_defects r known judged ++ shape_defects r b v3)
            (bound_defects rt e r b v3) (rw (found, validate_judged) at h) in
        let (heads, shape) = append-eq-nil (head_defects r known judged) _ clean in
        let (is_known, is_judged) = heads_known r known judged heads in
        record {
          fields = r;
          bindings = b;
          is_record = refl;
          has_bindings = found;
          known = k ∙ ap ok is_known;
          judged = j ∙ ap ok is_judged;
          heads = ap₂ (head_defects r) (sym is_known) (sym is_judged) ∙ heads;
          shape = shape;
          bound = bound_clean rt e r b v3 bound;
        }
  ]

  pub accepted : (v : Value) → validate_record rt e v ≡ ok [] → Accepted rt e v
  unfolding validate_record validate_present
  accepted (obj r) h = elim (Bool-cases (is_nil (filter (λ f. not (has f r)) top_fields))) [
    | inl whole ↦
        let present : validate_present rt e r ≡ ok [] = rw whole at h in
        let (known, k, h1) =
          >>=-eq-ok (in_set (get "evidence_class" r) evidence_classes) _ present in
        let (judged, j, h2) = >>=-eq-ok (in_set (get "result" r) results) _ h1 in
        judged-Accepted r known judged k j h2
    | inr partial ↦ absurd (fields_missing _ partial (rw partial at h))
  ]
  accepted _ h = absurd (cc)
