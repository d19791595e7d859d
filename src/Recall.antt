-- ===== src/Recall.antt =====
-- The scoring of scripts/recall_score.py: which planted defects the voices of a panel caught.
pub mod BlindSpot
pub mod Union
use fv.Prelude.{
  ℕ, ◌+◌, ◌-◌, String, Bool, true, false, ◌&&◌, not, Option, none, some, List, [], ◌∷◌, ◌++◌, ◌==◌,
  if◌then◌else◌, is_nil, nat_eq, leb, filter, map, concat_map, contains, dedup, length,
}
use fv.Json.{ℤ, pos, negsuc}
use fv.Text.{codes, eq_codes, sorted, mem}
use fv.Text.Strip.{strip}
use fv.Pyramid.Machine.{put}

-- A planted defect of the corpus.
pub record Defect : Type 0 where
  pub id : String
  pub file : String
  pub category : String
  pub line : ℤ

-- A detection of a voice; `none` for a line that `int` refuses.
pub record Detection : Type 0 where
  pub file : String
  pub category : String
  pub line : Option ℤ

-- `os.path.basename`
unfoldable pub basename : List ℕ → List ℕ
basename [] = []
basename (c ∷ cs) =
    let rest = basename cs in if mem b'/' cs then rest else if nat_eq c b'/' then cs else c ∷ cs

-- `abs(a - b)`
abbrev pub distance : ℤ → ℤ → ℕ
distance (pos a) (pos b) = (a - b) + (b - a)
distance (negsuc a) (negsuc b) = (a - b) + (b - a)
distance (pos a) (negsuc b) = a + b + 1
distance (negsuc a) (pos b) = a + b + 1

abbrev pub within : ℤ → ℕ → Bool
within (pos tol) d = leb d tol
within (negsuc tol) d = false

-- `matches`, where `lower` is `str.lower` on code points.
unfoldable pub matches : (List ℕ → List ℕ) → ℤ → Detection → Defect → Bool
unfolding basename strip eq_codes
matches lower tol det d = elim (det.line) [
  | none ↦ false
  | some line ↦
      eq_codes (basename (codes det.file)) (basename (codes d.file))
      && eq_codes (lower (strip (codes det.category))) (lower (strip (codes d.category)))
      && within tol (distance line d.line)
]

-- `hit_ids`
abbrev pub hit_ids : (Detection → Defect → Bool) → List Defect → Detection → List String
hit_ids hit defects det = concat_map (λ d. if hit det d then d.id ∷ [] else []) defects

-- The voices that caught each defect.
abbrev pub Caught : Type 0
Caught = List (String × List String)

-- `{d["id"]: [] for d in defects}`, onto the entries so far.
unfoldable pub caught_from : Caught → List Defect → Caught
caught_from caught [] = caught
caught_from caught (d ∷ ds) = caught_from (put d.id [] caught) ds

-- `caught_by[did].append(voice)`: a dict has one entry for an id.
unfoldable pub catch : String → String → Caught → Caught
catch did voice [] = []
catch did voice ((k, voices) ∷ rest) =
    (k, if k == did then voices ++ voice ∷ [] else voices) ∷ catch did voice rest

unfoldable pub catch_all : String → List String → Caught → Caught
unfolding catch
catch_all voice [] caught = caught
catch_all voice (did ∷ dids) caught = catch_all voice dids (catch did voice caught)

-- The loop over the detections of a voice.
unfoldable pub score_voice :
    (Detection → Defect → Bool) → List Defect → String → List Detection → Caught → Caught
unfolding catch_all
score_voice hit defects voice [] caught = caught
score_voice hit defects voice (det ∷ dets) caught =
    score_voice hit defects voice dets (catch_all voice (hit_ids hit defects det) caught)

-- The loop over the voices.
unfoldable pub score_voices :
    (Detection → Defect → Bool) → List Defect → List (String × List Detection) → Caught → Caught
unfolding score_voice
score_voices hit defects [] caught = caught
score_voices hit defects ((voice, dets) ∷ rest) caught =
    score_voices hit defects rest (score_voice hit defects voice dets caught)

abbrev pub uncaught : Caught → List String
uncaught caught = concat_map (λ (k, voices). if is_nil voices then k ∷ [] else []) caught

abbrev pub caught_ids : Caught → List String
caught_ids caught = concat_map (λ (k, voices). if is_nil voices then [] else k ∷ []) caught

-- The recall of the panel is `caught` out of `defects`.
pub record Score : Type 0 where
  pub defect_count : ℕ
  pub shared_blind_spot : List String
  pub union_caught : List String
  pub caught_by : List (String × List String)

-- `score`, with the voices in their order.
unfoldable pub score : (List ℕ → List ℕ) → ℤ → List Defect → List (String × List Detection) → Score
unfolding matches score_voices caught_from
score lower tol defects detections =
    let caught = score_voices (matches lower tol) defects detections (caught_from [] defects) in
    record {
      defect_count = length defects;
      shared_blind_spot = sorted (uncaught caught);
      union_caught = caught_ids caught;
      caught_by = map {B = String × List String} (λ (k, voices). (k, sorted (dedup voices))) caught;
    }
