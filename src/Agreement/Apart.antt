-- ===== src/Agreement/Apart.antt =====
-- Which artifacts a claim of a verified run has to itself. A record that is older than the schema of
-- cohorts may cite an artifact that another claim cites.
use fv.Prelude.{
  String, Bool, true, false, ◌||◌, not, none, some, List, [], ◌∷◌, ◌≡◌, refl, ap, ◌∙◌, arith,
  append-eq-nil, Bool-cases, Option-cases, contains, dedup, inl, inr, concat_map, all, ◌==◌,
  join_and,
}
use fv.Json.{Value}
use fv.Text.{sorted}
use fv.Text.Sorting.{contains-sorted, contains-dedup}
use fv.Gate.Schema.{Runtime}
use fv.Gate.Sharing.{
  index_records, find_record, cited_artifacts, cited_by_claim, cited_artifact_index, other_claims,
  shared_with, shared_artifact_defects, is_v3_record,
}
use fv.Gate.Run.{Run}
use fv.Agreement.Claim.{ClaimPasses}
use fv.Agreement.Sharing.{no_other, contains_head}

-- The record that the claim looks up cites none of the artifacts.
abbrev pub cites_none : List (String × Value) → List String → String → Bool
cites_none by_claim artifacts claim = elim (find_record claim by_claim) [
  | none ↦ true
  | some v ↦ all (λ p. not (contains (cited_artifacts v) p)) artifacts
]

-- A record of the schema of cohorts cites no artifact that the record of another of the claims cites.
abbrev pub apart : List (String × Value) → List String → String → Value → Bool
apart by_claim claims cid v =
    not (is_v3_record v)
    || all (λ other. other == cid || cites_none by_claim (cited_artifacts v) other) claims

-- A claim that a run of the gate verifies.
pub record Verified (rt : Runtime) (run : Run) (records : List Value) (claims : List String)
    (cid : String) : Type 0 where
  pub passes :
      ClaimPasses rt run
        (index_records records)
        (cited_artifact_index (sorted (dedup claims)) (index_records records).by_claim)
        cid
  pub own_artifacts : apart (index_records records).by_claim claims cid passes.value ≡ true

all_of :
    (f : String → Bool) (xs : List String)
    → ((x : String) → contains xs x ≡ true → f x ≡ true)
    → all f xs ≡ true
all_of f [] h = refl
all_of f (x ∷ xs) h =
    join_and (h x (contains_head x xs)) (all_of f xs (λ y m. h y (ground (arith, m))))

uncited :
    (cid other p : String) (artifacts : List String)
    → (other == cid) ≡ false
    → other_claims cid p (concat_map (λ q. (q, other) ∷ []) artifacts) ≡ []
    → contains artifacts p ≡ false
uncited cid other p [] differ h = refl
uncited cid other p (q ∷ qs) differ h = elim (Bool-cases (q == p)) [
  | inl same ↦ absurd (cc (rw (same, differ, other_claims) at h))
  | inr apart ↦ rw apart (uncited cid other p qs differ (rw (apart, other_claims) at h))
]

module _ (by_claim : List (String × Value)) (claims : List String) (cid : String) where
  alone :
      (p : String)
      → shared_with cid (cited_artifact_index claims by_claim) p ≡ []
      → other_claims cid p (cited_artifact_index claims by_claim) ≡ []
  alone p h = ground arith

  each_uncited :
      (other : String) (w : Value) (artifacts : List String)
      → (other == cid) ≡ false
      → contains claims other ≡ true
      → find_record other by_claim ≡ some w
      → concat_map (shared_with cid (cited_artifact_index claims by_claim)) artifacts ≡ []
      → all (λ p. not (contains (cited_artifacts w) p)) artifacts ≡ true
  unfolding cited_artifact_index
  each_uncited other w [] differ m found h = refl
  each_uncited other w (p ∷ ps) differ m found h =
      let (here, there) =
        append-eq-nil (shared_with cid (cited_artifact_index claims by_claim) p) _ h in
      join_and
        (ap not (
          uncited cid other p (cited_artifacts w) differ (
            rw (found, cited_by_claim) at (no_other by_claim cid p claims other (alone p here) m))))
        (each_uncited other w ps differ m found there)

  claim_apart :
      (v : Value)
      → shared_artifact_defects cid v (cited_artifact_index claims by_claim) ≡ []
      → is_v3_record v ≡ true
      → (other : String) → contains claims other ≡ true
      → (other == cid || cites_none by_claim (cited_artifacts v) other) ≡ true
  unfolding shared_artifact_defects
  claim_apart v h v3 other m = elim (Bool-cases (other == cid)) [
    | inl own ↦ rw own refl
    | inr differ ↦ elim (Option-cases (find_record other by_claim)) [
      | inl absent ↦ rw (differ, absent, cites_none) refl
      | inr (w, found) ↦
          rw (differ, found, cites_none)
            (each_uncited other w (cited_artifacts v) differ m found (rw v3 at h))
    ]
  ]

-- A claim that PASSes in a run over these claims has its artifacts to itself.
pub ClaimPasses-Verified :
    (rt : Runtime) (run : Run) (records : List Value) (claims : List String) (cid : String)
    → ClaimPasses rt run
        (index_records records)
        (cited_artifact_index (sorted (dedup claims)) (index_records records).by_claim)
        cid
    → Verified rt run records claims cid
ClaimPasses-Verified rt run records claims cid p = record {
  passes = p;
  own_artifacts = elim (Bool-cases (is_v3_record p.value)) [
    | inr older ↦ rw older refl
    | inl v3 ↦ rw v3 (
        all_of _ claims (λ other m.
          claim_apart (index_records records).by_claim (sorted (dedup claims)) cid p.value
            p.unshared v3 other
            (contains-sorted (dedup claims) other ∙ (contains-dedup claims other ∙ m))))
  ];
}
