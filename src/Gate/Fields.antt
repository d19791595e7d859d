-- ===== src/Gate/Fields.antt =====
-- The rules on the text of a record that need no repository: waivers, asserted bindings, dirty
-- snapshots, the obligation manifest, and the scope of a producer's record.
use fv.Prelude.{
  String, Bool, true, false, ◌&&◌, ◌||◌, not, Option, none, some, List, [], ◌∷◌, ◌++◌, ◌==◌,
  if◌then◌else◌, is_nil, all, filter, concat_map, when, contains, dedup, length, nat_eq,
}
use fv.Json.{Value, Fields, get, has, as_str, as_list, as_obj, is_int, str_with, truthy}
use fv.Text.{obligation_id, profile_id, sha256_hex, blank, ends_with, sorted}
use fv.Gate.Schema.{
  Defect, lacks_identity, malformed_profile, bad_targets, not_nonempty_string, waiver_not_object,
  waiver_not_attributable, dirty_snapshot, stale_manifest, not_producer, repeated_target,
  wrong_targets, waiver_fields, producer_profile,
}

-- `isinstance(v, str) and v`
abbrev pub nonempty_str : Value → Bool
nonempty_str v = str_with (λ s. not (s == "")) v

-- `isinstance(v, str) and v.strip()`
unfoldable pub nonblank_str : Value → Bool
nonblank_str v = str_with (λ s. not (blank s)) v

-- `v == s`, for a text s.
abbrev pub is_text : String → Value → Bool
is_text s v = str_with (λ t. t == s) v

-- `_valid_toolchain`
unfoldable pub valid_toolchain : Value → Bool
valid_toolchain v = elim (as_obj v) [
  | none ↦ false
  | some t ↦
      nonempty_str (get "executable" t)
      && str_with sha256_hex (get "sha256" t)
      && str_with (λ _. true) (get "version" t)
      && is_int (get "version_exit_code" t)
]

-- `_waiver_defects`
unfoldable pub waiver_defects : Value → List Defect
waiver_defects waiver =
    if truthy waiver
    then (elim (as_obj waiver) [
      | none ↦ waiver_not_object waiver ∷ []
      | some w ↦
          let missing = filter (λ f. not (nonblank_str (get f w))) waiver_fields in
          when (not (is_nil missing)) (waiver_not_attributable missing waiver)
    ])
    else []

-- A nonempty array whose entries are texts that pass the test.
abbrev pub array_of : (String → Bool) → Value → Bool
array_of p v = elim (as_list v) [
  | none ↦ false
  | some entries ↦ not (is_nil entries) && all (str_with p) entries
]

abbrev asserted : Bool → List String
asserted schema_v3 =
    ("intent_hash" ∷ "obligation_manifest_hash" ∷ "environment_policy" ∷ "parser_schema_version"
      ∷ "run_id" ∷ [])
    ++ (if schema_v3 then "intent_path" ∷ [] else [])

-- `_asserted_field_defects`
unfoldable pub asserted_field_defects : Fields → Bool → List Defect
asserted_field_defects b schema_v3 =
    when (not (str_with profile_id (get "profile" b))) (malformed_profile (get "profile" b))
    ++ (when (not (array_of obligation_id (get "required_targets" b)))
          (bad_targets (get "required_targets" b))
        ++ concat_map (λ f. when (not (nonblank_str (get f b))) (not_nonempty_string f (get f b)))
            (asserted schema_v3))

-- `dirty_snapshot_defects`
unfoldable pub dirty_snapshot_defects : Value → Fields → List Defect
dirty_snapshot_defects result b = elim (as_str (get "source_snapshot" b)) [
  | none ↦ []
  | some s ↦ when (is_text "PASS" result && ends_with s "+dirty") (dirty_snapshot s)
]

-- An argument that is given and not empty.
abbrev pub given : Option String → Option String
given none = none
given (some s) = if s == "" then none else some s

-- `manifest_binding_defects`
unfoldable pub manifest_binding_defects : Fields → Option String → List Defect
manifest_binding_defects b expect_manifest = elim (given expect_manifest) [
  | none ↦ []
  | some m ↦
      when (not (is_text m (get "obligation_manifest_hash" b)))
        (stale_manifest (get "obligation_manifest_hash" b) m)
]

-- The texts of an array.
abbrev pub texts : List Value → List String
texts vs = concat_map (λ v. elim (as_str v) [ none ↦ [] | some s ↦ s ∷ [] ]) vs

-- `xs - ys`, each once.
abbrev pub minus : List String → List String → List String
minus xs ys = dedup (filter (λ x. not (contains ys x)) xs)

-- The comparison of `required_targets` with the manifest's complete set.
target_defects : Value → Option (List String) → List Defect
target_defects v none = []
target_defects v (some expected) = elim (as_list v) [
  | none ↦ []
  | some entries ↦
      let declared = texts entries in
      let missing = sorted (minus expected declared) in
      let unexpected = sorted (minus declared expected) in
      when (not (nat_eq (length (dedup declared)) (length declared))) (repeated_target v)
      ++ when (not (is_nil missing && is_nil unexpected)) (wrong_targets missing unexpected)
]

-- `v3_producer_defects`
unfoldable pub v3_producer_defects : Fields → Option (List String) → List Defect
unfolding target_defects
v3_producer_defects b expect_required_targets =
    when (not (is_text producer_profile (get "profile" b))) (not_producer (get "profile" b))
    ++ target_defects (get "required_targets" b) expect_required_targets

-- `is_schema_v3`
unfoldable pub is_schema_v3 : Value → Bool
is_schema_v3 bindings = elim (as_obj bindings) [
  | none ↦ false
  | some b ↦ is_text "fv-evidence-run/v3" (get "parser_schema_version" b) || has "executions" b
]

-- The identity rule on the bindings of a producer's record.
unfoldable pub producer_identity_defects : Fields → List Defect
unfolding valid_toolchain
producer_identity_defects b =
    when
      (is_text producer_profile (get "profile" b)
        && not (valid_toolchain (get "toolchain_digests" b)))
      lacks_identity
