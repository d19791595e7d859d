-- ===== src/Gate/Sharing.antt =====
-- Records by claim id, the artifacts that they cite, and the assumed classes that they rest on.
use fv.Prelude.{
  ℕ, suc, String, Bool, false, ◌&&◌, not, Option, none, some, List, [], ◌∷◌, ◌++◌, ◌==◌,
  if◌then◌else◌, is_nil, when, contains, concat_map, dedup,
}
use fv.Json.{Value, Fields, get, as_str, as_list, as_obj, str_with}
use fv.Text.{sorted}
use fv.Gate.Schema.{Defect, shared_artifact, assumed_classes}
use fv.Gate.Fields.{nonempty_str, is_schema_v3}
use fv.Gate.Artifact.{text_of}

-- `by_claim`, newest record first, and the claims that have two records.
pub record Index : Type 0 where
  pub by_claim : List (String × Value)
  pub duplicates : List String

abbrev pub find_record : String → List (String × Value) → Option Value
find_record cid [] = none
find_record cid ((c, r) ∷ rest) = if c == cid then some r else find_record cid rest

-- `record.get("claim_id")`, where the record is an object and its claim id a text.
abbrev pub claim_id_of : Value → Option String
claim_id_of v = elim (as_obj v) [ none ↦ none | some r ↦ as_str (get "claim_id" r) ]

unfoldable pub add_record : Index → Value → Index
add_record ix v = elim (claim_id_of v) [
  | none ↦ ix
  | some cid ↦ record {
    by_claim = (cid, v) ∷ ix.by_claim;
    duplicates = (elim (find_record cid ix.by_claim) [
      | none ↦ ix.duplicates
      | some _ ↦ cid ∷ ix.duplicates
    ]);
  }
]

unfoldable pub index_onto : Index → List Value → Index
index_onto ix [] = ix
index_onto ix (v ∷ vs) = index_onto (add_record ix v) vs

-- The loop of `main` over the records.
unfoldable pub index_records : List Value → Index
unfolding index_onto
index_records vs = index_onto (record { by_claim = []; duplicates = [] }) vs

abbrev pub bindings_of : Value → Option Fields
bindings_of v = elim (as_obj v) [ none ↦ none | some r ↦ as_obj (get "bindings" r) ]

-- The path of an execution that is an object.
abbrev execution_path : Value → List Value
execution_path v = elim (as_obj v) [ none ↦ [] | some x ↦ get "raw_output_path" x ∷ [] ]

abbrev execution_paths : Fields → List Value
execution_paths b = elim (as_list (get "executions" b)) [
  | none ↦ []
  | some xs ↦ concat_map execution_path xs
]

-- `_cited_artifacts`
unfoldable pub cited_artifacts : Value → List String
cited_artifacts v = elim (bindings_of v) [
  | none ↦ []
  | some b ↦ dedup (
      concat_map (λ p. when (nonempty_str p) (text_of p))
        (get "raw_output_path" b ∷ execution_paths b))
]

abbrev pub cited_by_claim : List (String × Value) → String → List (String × String)
cited_by_claim by_claim cid = elim (find_record cid by_claim) [
  | none ↦ []
  | some v ↦ concat_map (λ p. (p, cid) ∷ []) (cited_artifacts v)
]

-- `cited_artifact_index`: the pairs of an artifact and a required claim that cites it.
unfoldable pub cited_artifact_index : List String → List (String × Value) → List (String × String)
cited_artifact_index required by_claim = concat_map (cited_by_claim by_claim) required

-- `cited.get(artifact, set()) - {claim}`
abbrev pub other_claims : String → String → List (String × String) → List String
other_claims cid p [] = []
other_claims cid p ((q, c) ∷ rest) =
    let others = other_claims cid p rest in if q == p && not (c == cid) then c ∷ others else others

abbrev pub shared_with : String → List (String × String) → String → List Defect
shared_with cid cited p =
    let others = other_claims cid p cited in
    when (not (is_nil others)) (shared_artifact p (sorted (dedup others)))

abbrev pub is_v3_record : Value → Bool
is_v3_record v = elim (as_obj v) [ none ↦ false | some r ↦ is_schema_v3 (get "bindings" r) ]

-- `shared_artifact_defects`
unfoldable pub shared_artifact_defects : String → Value → List (String × String) → List Defect
shared_artifact_defects cid v cited =
    if is_v3_record v then concat_map (shared_with cid cited) (cited_artifacts v) else []

-- A place where a record rests on an assumed class: the record's own class, or that of an
-- execution, with its tool or its position.
pub data Source : Type 0 where
  record_class : String → Source
  execution_class : Option String → ℕ → String → Source

abbrev pub is_assumed : Value → Bool
is_assumed v = str_with (contains assumed_classes) v

abbrev pub execution_source : ℕ → Value → List Source
execution_source i v = elim (as_obj v) [
  | none ↦ []
  | some x ↦
      when (is_assumed (get "evidence_class" x))
        (execution_class (as_str (get "tool" x)) i (text_of (get "evidence_class" x)))
]

abbrev pub execution_sources : ℕ → List Value → List Source
execution_sources i [] = []
execution_sources i (x ∷ xs) = execution_source i x ++ execution_sources (suc i) xs

-- `_assumed_evidence`, of a record that is an object.
unfoldable pub assumed_evidence : Fields → List Source
assumed_evidence r =
    when (is_assumed (get "evidence_class" r)) (record_class (text_of (get "evidence_class" r)))
    ++ (elim (as_obj (get "bindings" r)) [
      | none ↦ []
      | some b ↦ elim (as_list (get "executions" b)) [
        | none ↦ []
        | some xs ↦ execution_sources 0 xs
      ]
    ])
