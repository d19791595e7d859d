-- ===== src/Agreement/Manifest.antt =====
-- A list of ids that the gate accepts the dashboard reads too.
use fv.Prelude.{
  ℕ, suc, String, Bool, true, false, List, [], ◌∷◌, ◌++◌, ◌≡◌, refl, ap, contains, is_nil, subst,
  Bool-cases, Option-cases, inl, inr,
}
use fv.Prelude.Errors.{ok, >>=-eq-ok, ok-injective}
use fv.Json.{Value, Fields, get, as_list, str}
use fv.Text.{obligation_id, evidence_tool_id, blank}
use fv.Text.Blank.{obligation_id-blank, evidence_tool_id-blank}
use fv.Gate.Manifest.{ids_from, id_list, check_dependencies, validate_system_claim}
use fv.Dashboard.Manifest.{collect_ids, read_ids, read_claim}

collect_ids-ids_from :
    (claim_id name : String) (pattern_of : String → Bool) (ids : List String) (index : ℕ)
    (vs : List Value) {out : List String}
    → ((s : String) → pattern_of s ≡ true → blank s ≡ false)
    → ids_from claim_id name pattern_of ids index vs ≡ ok out
    → collect_ids claim_id name ids vs ≡ ok out
unfolding ids_from collect_ids
collect_ids-ids_from claim_id name pattern_of ids index [] full h = ap ok (ok-injective h)
collect_ids-ids_from claim_id name pattern_of ids index (str s ∷ vs) full h =
    elim (Bool-cases (pattern_of s)) [
      | inr other ↦ absurd (cc (rw other at h))
      | inl good ↦ elim (Bool-cases (contains ids s)) [
        | inl old ↦ absurd (cc (rw (good, old) at h))
        | inr new ↦
            rw (full s good, new)
              (collect_ids-ids_from claim_id name pattern_of (ids ++ s ∷ []) (suc index) vs full
                (rw (good, new) at h))
      ]
    ]
collect_ids-ids_from claim_id name pattern_of ids index (_ ∷ vs) full h = absurd (cc)

read_ids-id_list :
    (claim_id name : String) (v : Value) (pattern_of : String → Bool) {out : List String}
    → ((s : String) → pattern_of s ≡ true → blank s ≡ false)
    → id_list claim_id name v pattern_of ≡ ok out
    → read_ids claim_id name v ≡ ok out
unfolding id_list read_ids
read_ids-id_list claim_id name v pattern_of full h = elim (Option-cases (as_list v)) [
  | inl other ↦ absurd (cc (rw (other, id_list) at h))
  | inr (vs, listed) ↦ elim (Bool-cases (is_nil vs)) [
    | inl empty ↦ absurd (cc (rw (listed, empty, id_list) at h))
    | inr filled ↦
        rw (listed, filled, read_ids)
          (collect_ids-ids_from claim_id name pattern_of [] 0 vs full
            (rw (listed, filled, id_list) at h))
  ]
]

pub read_claim-validate_system_claim :
    (claim_id : String) (item : Fields) (kinds : List (String × String))
    {lists : List String × List String}
    → validate_system_claim claim_id item kinds ≡ ok lists
    → read_claim claim_id item ≡ ok (record { depends_on = lists.0; required_evidence = lists.1 })
unfolding validate_system_claim read_claim
read_claim-validate_system_claim claim_id item kinds h =
    let (deps, q, h1) =
      >>=-eq-ok (id_list claim_id "depends_on" (get "depends_on" item) obligation_id) _ h in
    let (u, q', h2) = >>=-eq-ok (check_dependencies claim_id kinds deps) _ h1 in
    let (evidence, q'', h3) =
      >>=-eq-ok
        (id_list claim_id "required_evidence" (get "required_evidence" item) evidence_tool_id) _
        h2 in
    subst
      (λ l. read_claim claim_id item ≡ ok (record { depends_on = l.0; required_evidence = l.1 }))
      (ok-injective h3)
      (rw
        (
          read_ids-id_list claim_id "depends_on" (get "depends_on" item) obligation_id
              obligation_id-blank q,
          read_ids-id_list claim_id "required_evidence" (get "required_evidence" item)
              evidence_tool_id evidence_tool_id-blank q'',
        )
        refl)
