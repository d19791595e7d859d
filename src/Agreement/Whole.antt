-- ===== src/Agreement/Whole.antt =====
-- One manifest, loaded by both programs: a run that the gate verifies is covered.
use fv.Prelude.{
  String, Option, some, none, List, [], ◌∷◌, ◌==◌, ◌≡◌, refl, sym, ap, ◌∙◌, map, is_nil, false,
  Bool-cases, inl, inr,
}
use fv.Prelude.Errors.{ok}
use fv.Json.{Value}
use fv.Gate.Schema.{Runtime}
use fv.Gate.Run.{Run, Status, Verdict, exit_code, gate, lookup, or_nil}
use fv.Gate.Manifest.{Manifest, load_manifest}
use fv.Dashboard.Claim.{Row, Inputs, SystemClaim}
use fv.Dashboard.Manifest.{Loaded, read_manifest}
use fv.Dashboard.Run as Board
use fv.Dashboard.Run.{build_dashboard}
use fv.Agreement.Claim.{Matched}
use fv.Agreement.Sharing.{Among}
use fv.Agreement.Run.{build_dashboard-gate}
use fv.Agreement.Obligations.{read_manifest-load_manifest}

-- What the dashboard is given, where the manifest is read and its hash is known.
abbrev pub inputs_of : Loaded → Option String → Inputs
inputs_of l manifest = record {
  kinds = l.kinds;
  system_claims = l.system_claims;
  required_targets = some l.required;
  manifest = manifest;
}

required_of_claims :
    (claims : List (String × SystemClaim)) (cid : String) (spec : SystemClaim)
    → lookup cid claims ≡ some spec
    → or_nil
        (lookup cid (map {B = String × List String} (λ (c, s). (c, s.required_evidence)) claims))
      ≡ spec.required_evidence
required_of_claims [] cid spec h = absurd (cc)
required_of_claims ((c, s) ∷ rest) cid spec h = elim (Bool-cases (c == cid)) [
  | inl same ↦
      rw same (
        ap (λ o. or_nil (elim o [ none ↦ none | some t ↦ some t.required_evidence ]))
          (rw same at h))
  | inr other ↦ rw other (required_of_claims rest cid spec (rw other at h))
]

-- Both programs load one manifest. Where the gate, with what it loaded, ends with the exit status 0,
-- the dashboard reads the manifest too and, with what it read, covers every nonempty list of claims
-- among the gate's: its exit status is 0.
pub build_dashboard-read_manifest :
    (rt : Runtime) (run : Run) (v : Value) (m : Manifest) (records : List Value)
    (required viewed : List String) {entries : List (String × Status)} {outcome : Verdict}
    → load_manifest v ≡ ok m
    → run.kinds ≡ m.kinds
    → run.evidence ≡ m.evidence
    → run.required_targets ≡ some m.required
    → gate rt run records required ≡ ok (entries, outcome)
    → exit_code outcome ≡ 0
    → Among viewed required
    → is_nil viewed ≡ false
    → (l : Loaded) × (rows : List Row) × (shown : Board.Verdict) × (read_manifest v ≡ ok l)
      × (build_dashboard rt (inputs_of l run.manifest) records viewed ≡ ok (rows, shown))
      × (Board.exit_code shown ≡ 0)
build_dashboard-read_manifest rt run v m records required viewed loaded kinds evidence targets h
      zero among some_viewed =
    let (l, read, required_same, kinds_same, depends_same, evidence_same) =
      read_manifest-load_manifest v m loaded in
    let matched : Matched run (inputs_of l run.manifest) = record {
      kinds = kinds_same ∙ sym kinds;
      targets = ap some required_same ∙ sym targets;
      manifest = refl;
      evidence = λ cid spec declared.
          ap (λ e. or_nil (lookup cid e)) (evidence ∙ sym evidence_same)
          ∙ required_of_claims l.system_claims cid spec declared;
    } in
    let (rows, shown, built, covered) =
      build_dashboard-gate rt run (inputs_of l run.manifest) records required viewed matched h zero
        among some_viewed in
    (l, rows, shown, read, built, covered)
