-- ===== src/Agreement/Sharing.antt =====
-- The artifacts that several claims cite turn only on which claims are judged, not on their order.
use fv.Prelude.{
  String, true, List, [], ◌∷◌, ◌++◌, ◌≡◌, refl, sym, ◌∙◌, arith, append-eq-nil, Bool-cases,
  contains, inl, inr, concat_map, ◌==◌, eq_iff, subst, concat_map-eq-nil,
}
use fv.Json.{Value}
use fv.Gate.Sharing.{
  cited_artifacts, cited_by_claim, cited_artifact_index, other_claims, shared_with,
  shared_artifact_defects, is_v3_record,
}

-- Every claim of the first list is in the second.
abbrev pub Among : List String → List String → Type 0
Among xs ys = (c : String) → contains xs c ≡ true → contains ys c ≡ true

pub contains_head : (x : String) (xs : List String) → contains (x ∷ xs) x ≡ true
contains_head x xs = ground (arith, eq_iff x x)

other_claims-append :
    (cid p : String) (xs ys : List (String × String))
    → other_claims cid p (xs ++ ys) ≡ other_claims cid p xs ++ other_claims cid p ys
other_claims-append cid p [] ys = refl
other_claims-append cid p ((q, c) ∷ xs) ys = ground (arith, other_claims-append cid p xs ys)

module _ (by_claim : List (String × Value)) (cid p : String) where
  pub no_other :
      (required : List String) (c : String)
      → other_claims cid p (concat_map (cited_by_claim by_claim) required) ≡ []
      → contains required c ≡ true
      → other_claims cid p (cited_by_claim by_claim c) ≡ []
  no_other [] c h m = absurd (cc)
  no_other (x ∷ xs) c h m =
      let (here, there) =
        append-eq-nil (other_claims cid p (cited_by_claim by_claim x))
          (other_claims cid p (concat_map (cited_by_claim by_claim) xs))
          (sym (other_claims-append cid p (cited_by_claim by_claim x) _) ∙ h) in
      elim (Bool-cases (x == c)) [
        | inl same ↦
            subst (λ d. other_claims cid p (cited_by_claim by_claim d) ≡ []) ((eq_iff x c).0 same)
              here
        | inr other ↦ no_other xs c there (rw other at m)
      ]

  none_other :
      (required : List String)
      → ((c : String)
          → contains required c ≡ true
          → other_claims cid p (cited_by_claim by_claim c) ≡ [])
      → other_claims cid p (concat_map (cited_by_claim by_claim) required) ≡ []
  none_other [] h = refl
  none_other (x ∷ xs) h =
      rw (other_claims-append cid p (cited_by_claim by_claim x), h x (contains_head x xs))
        (none_other xs (λ c m. h c (ground (arith, m))))

  shared_with_fewer :
      (required fewer : List String)
      → Among fewer required
      → shared_with cid (cited_artifact_index required by_claim) p ≡ []
      → shared_with cid (cited_artifact_index fewer by_claim) p ≡ []
  unfolding cited_artifact_index
  shared_with_fewer required fewer among h =
      rw (none_other fewer (λ c m. no_other required c (unshared h) (among c m))) refl
    where
      unshared :
          shared_with cid (cited_artifact_index required by_claim) p ≡ []
          → other_claims cid p (cited_artifact_index required by_claim) ≡ []
      unshared q = ground arith

-- Judged over fewer claims a record shares no more artifacts.
pub shared_fewer :
    (by_claim : List (String × Value)) (cid : String) (v : Value) (required fewer : List String)
    → Among fewer required
    → shared_artifact_defects cid v (cited_artifact_index required by_claim) ≡ []
    → shared_artifact_defects cid v (cited_artifact_index fewer by_claim) ≡ []
unfolding shared_artifact_defects
shared_fewer by_claim cid v required fewer among h = elim (Bool-cases (is_v3_record v)) [
  | inl v3 ↦ rw v3 (
      concat_map-eq-nil (shared_with cid (cited_artifact_index required by_claim))
        (shared_with cid (cited_artifact_index fewer by_claim)) (cited_artifacts v)
        (λ p. shared_with_fewer by_claim cid p required fewer among) (rw v3 at h))
  | inr other ↦ rw other refl
]
