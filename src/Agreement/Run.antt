-- ===== src/Agreement/Run.antt =====
-- Whole runs: a run that the gate verifies is covered on the dashboard.
use fv.Prelude.{
  String, Bool, true, false, List, [], ◌∷◌, ◌≡◌, refl, sym, ap, ◌∙◌, arith, is_nil, Bool-cases,
  contains, inl, inr, any, all, map, filter, dedup, ◌==◌, eq_iff, subst,
}
use fv.Prelude.Errors.{ok, >>=-eq-ok, ok-injective}
use fv.Text.{sorted}
use fv.Text.Sorting.{contains-sorted, contains-dedup}
use fv.Json.{Value}
use fv.Gate.Schema.{Runtime}
use fv.Gate.Sharing.{Index, index_records, cited_artifact_index, shared_artifact_defects}
use fv.Gate.Run.{
  Run, Status, Verdict, judge_claim, judge_claims, verdict, exit_code, gate, is_passed, is_failed,
  is_incomplete, or_nil,
}
use fv.Dashboard.Claim as View
use fv.Dashboard.Claim.{Row, Inputs, evaluate_claim, demote, is_system_claim}
use fv.Dashboard.Run as Board
use fv.Dashboard.Run.{
  evaluate_claims, status_of, is_gap, cover_dependencies, apply_dependency_coverage,
  in_gap_statuses, compute_verdict, build_dashboard,
}
use fv.Agreement.Claim.{Matched, evaluate_claim-judge_claim}
use fv.Agreement.Sharing.{Among, shared_fewer}

-- An exit status of 0 needs a claim, and a PASS of every claim.
pub verdict_zero :
    (run : Run) (ix : Index) (entries : List (String × Status))
    → exit_code (verdict run ix entries) ≡ 0
    → (any (λ (cid, s). is_failed s) entries ≡ false)
      × (any (λ (cid, s). is_incomplete s) entries ≡ false)
      × (is_nil entries ≡ false)
unfolding verdict
verdict_zero run ix entries h = (ground arith, ground arith, ground arith)

pub passed_of : (s : Status) → is_failed s ≡ false → is_incomplete s ≡ false → is_passed s ≡ true
passed_of s h k = ground arith

-- The rows all PASS.
abbrev all_passed : List Row → Bool
all_passed = all (λ row. View.is_passed row.status)

pub entry_passes :
    (x : String) (s : Status) (others : List (String × Status))
    → any (λ (cid, t). is_failed t) ((x, s) ∷ others) ≡ false
    → any (λ (cid, t). is_incomplete t) ((x, s) ∷ others) ≡ false
    → (is_passed s ≡ true)
      × (any (λ (cid, t). is_failed t) others ≡ false)
      × (any (λ (cid, t). is_incomplete t) others ≡ false)
entry_passes x s others nf ni = (ground arith, ground arith, ground arith)

module _ (rt : Runtime) (run : Run) (ix : Index) (cited : List (String × String)) where
  -- Every claim of the list is judged to PASS.
  abbrev pub AllPass : List String → Type 0
  AllPass required =
      (cid : String)
      → contains required cid ≡ true
      → (s : Status) × (judge_claim rt run ix cited cid ≡ ok s) × (is_passed s ≡ true)

  pub all_pass :
      (required : List String) (entries : List (String × Status))
      → judge_claims rt run ix cited required ≡ ok entries
      → any (λ (cid, s). is_failed s) entries ≡ false
      → any (λ (cid, s). is_incomplete s) entries ≡ false
      → AllPass required
  unfolding judge_claims
  all_pass [] entries h nf ni cid m = absurd (cc)
  all_pass (x ∷ xs) entries h nf ni cid m =
      let (s, q, h1) = >>=-eq-ok (judge_claim rt run ix cited x) _ h in
      let (others, q', h2) = >>=-eq-ok (judge_claims rt run ix cited xs) _ h1 in
      let e = ok-injective h2 in
      let (first, failed, incomplete) =
        entry_passes x s others (subst (λ l. any (λ (c, t). is_failed t) l ≡ false) (sym e) nf)
          (subst (λ l. any (λ (c, t). is_incomplete t) l ≡ false) (sym e) ni) in
      elim (Bool-cases (x == cid)) [
        | inl same ↦ (s, ap (judge_claim rt run ix cited) (sym ((eq_iff x cid).0 same)) ∙ q, first)
        | inr other ↦ all_pass xs others q' failed incomplete cid (rw other at m)
      ]

  -- Claims among those that PASS, in any order, are evaluated to rows that PASS.
  evaluated :
      (inputs : Inputs) (cited' : List (String × String)) (required : List String)
      → Matched run inputs
      → ((cid : String) (v : Value)
          → shared_artifact_defects cid v cited ≡ []
          → shared_artifact_defects cid v cited' ≡ [])
      → AllPass required
      → (rows : List Row) × (evaluate_claims rt inputs ix cited' required ≡ ok rows)
        × (all_passed rows ≡ true)
  unfolding evaluate_claims
  evaluated inputs cited' [] m fewer h = ([], refl, refl)
  evaluated inputs cited' (x ∷ xs) m fewer h =
      let (s, q, pass) = h x (ground (arith, eq_iff x x)) in
      let (row, first, passes) =
        evaluate_claim-judge_claim rt run inputs ix cited cited' x m (fewer x) q pass in
      let (rows, rest, others) =
        evaluated inputs cited' xs m fewer (λ c among. h c (ground (arith, among))) in
      (row ∷ rows, rw (first, rest) refl, rw (passes, others) refl)

status_passed :
    (d : String) (rows : List Row) → all_passed rows ≡ true → is_gap (status_of d rows) ≡ false
status_passed d [] h = refl
status_passed d (row ∷ rows) h = ground (arith, status_passed d rows)

no_gaps :
    (rows : List Row) (ds : List String)
    → all_passed rows ≡ true
    → filter (λ d. is_gap (status_of d rows)) ds ≡ []
no_gaps rows [] h = refl
no_gaps rows (d ∷ ds) h = rw (status_passed d rows h) (no_gaps rows ds h)

covered_passes :
    (before : List Row) (row : Row)
    → all_passed before ≡ true
    → View.is_passed row.status ≡ true
    → View.is_passed (cover_dependencies before row).status ≡ true
unfolding cover_dependencies
covered_passes before row h pass = rw (no_gaps before (or_nil row.depends_on) h) (ground arith)

cover_all :
    (before rows : List Row)
    → all_passed before ≡ true
    → all_passed rows ≡ true
    → all_passed (map (cover_dependencies before) rows) ≡ true
cover_all before [] h k = refl
cover_all before (row ∷ rows) h k =
    ground (arith, covered_passes before row h, cover_all before rows h)

none_failed :
    (rows : List Row)
    → all_passed rows ≡ true
    → (any (λ row. Board.is_failed row.status) rows ≡ false)
      × (any (λ row. in_gap_statuses row.status) rows ≡ false)
none_failed [] h = (refl, refl)
none_failed (row ∷ rows) h = ground (arith, none_failed rows)

pub pair_snd {ℓ κ} :
    {A : Type ℓ} {B : Type κ} {a b : A} {c d : B} → ◌≡◌ {A = A × B} (a, c) (b, d) → c ≡ d
pair_snd h = ap (λ p. p.1) h

covered_zero :
    (rows : List Row) (ix : Index) (required : List String)
    → all_passed rows ≡ true
    → is_nil required ≡ false
    → Board.exit_code (compute_verdict (apply_dependency_coverage rows) ix required) ≡ 0
unfolding compute_verdict apply_dependency_coverage
covered_zero rows ix required h some_required =
    let (failed, gaps) =
      none_failed (map (cover_dependencies rows) rows) (cover_all rows rows h h) in
    rw (some_required, failed, gaps) refl

-- Where the gate verifies a run (exit status 0), the dashboard judges the same records, with the
-- same manifest, to be covered (exit status 0): for any list of some of the gate's claims, in any
-- order.
pub build_dashboard-gate :
    (rt : Runtime) (run : Run) (inputs : Inputs) (records : List Value)
    (required viewed : List String) {entries : List (String × Status)} {outcome : Verdict}
    → Matched run inputs
    → gate rt run records required ≡ ok (entries, outcome)
    → exit_code outcome ≡ 0
    → Among viewed required
    → is_nil viewed ≡ false
    → (rows : List Row) × (shown : Board.Verdict) × (build_dashboard rt inputs records viewed
        ≡ ok (rows, shown))
      × (Board.exit_code shown ≡ 0)
unfolding gate build_dashboard
build_dashboard-gate rt run inputs records required viewed m h zero among some_viewed =
    let ix = index_records records in
    let judged = sorted (dedup required) in
    let cited = cited_artifact_index judged ix.by_claim in
    let (entries', q, h1) = >>=-eq-ok (judge_claims rt run ix cited judged) _ h in
    let (nf, ni, some_entry) =
      verdict_zero run ix entries' (ap exit_code (pair_snd (ok-injective h1)) ∙ zero) in
    let passes = all_pass rt run ix cited judged entries' q nf ni in
    let kept : Among viewed judged =
      λ c mem. contains-sorted (dedup required) c ∙ (contains-dedup required c ∙ among c mem) in
    let (rows, e, passed) =
      evaluated rt run ix cited inputs (cited_artifact_index viewed ix.by_claim) viewed m
        (λ cid v. shared_fewer ix.by_claim cid v judged viewed kept)
        (λ c mem. passes c (kept c mem)) in
    (
      apply_dependency_coverage rows,
      compute_verdict (apply_dependency_coverage rows) ix viewed,
      rw e refl,
      covered_zero rows ix viewed passed some_viewed,
    )
