-- ===== src/Recall/BlindSpot.antt =====
-- The shared blind spot and the bound on recall.
use fv.Prelude.{
  ℕ, suc, ◌+◌, ◌≤◌, String, Bool, ◌&&◌, ◌||◌, not, List, [], ◌∷◌, ◌==◌, ◌≡◌, refl, ◌∙◌, ap, any,
  map, contains, length, arith, eq_iff, Bool-cases, inl, inr,
}
use fv.Json.{ℤ}
use fv.Text.Sorting.{contains-sorted}
use fv.Pyramid.Machine.{put}
use fv.Recall.{
  Defect, Detection, matches, hit_ids, Caught, caught_from, catch, catch_all, score_voice,
  score_voices, uncaught, caught_ids, score,
}

uncaught-catch :
    (did voice id : String) (caught : Caught)
    → contains (uncaught (catch did voice caught)) id
      ≡ (contains (uncaught caught) id && not (did == id))
unfolding catch
uncaught-catch did voice id [] = refl
uncaught-catch did voice id ((k, []) ∷ rest) = elim (Bool-cases (k == did)) [
  | inl same ↦ rw same (
      ground
        (arith, same, eq_iff k did, eq_iff did id, eq_iff k id, uncaught-catch did voice id rest))
  | inr other ↦ rw other (
      ground
        (arith, other, eq_iff k did, eq_iff did id, eq_iff k id, uncaught-catch did voice id rest))
]
uncaught-catch did voice id ((k, v ∷ vs) ∷ rest) = elim (Bool-cases (k == did)) [
  | inl same ↦ rw same (uncaught-catch did voice id rest)
  | inr other ↦ rw other (uncaught-catch did voice id rest)
]

uncaught-catch_all :
    (voice id : String) (dids : List String) (caught : Caught)
    → contains (uncaught (catch_all voice dids caught)) id
      ≡ (contains (uncaught caught) id && not (contains dids id))
unfolding catch_all
uncaught-catch_all voice id [] caught = ground arith
uncaught-catch_all voice id (did ∷ dids) caught = ground (
  arith,
  uncaught-catch_all voice id dids (catch did voice caught),
  uncaught-catch did voice id caught,
)

catch-length :
    (did voice : String) (caught : Caught) → length (catch did voice caught) ≡ length caught
unfolding catch
catch-length did voice [] = refl
catch-length did voice ((k, voices) ∷ rest) = ap suc (catch-length did voice rest)

pub parts-length :
    (caught : Caught) → length (uncaught caught) + length (caught_ids caught) ≡ length caught
parts-length [] = refl
parts-length ((k, []) ∷ rest) = ground (arith, parts-length rest)
parts-length ((k, v ∷ vs) ∷ rest) = ground (arith, parts-length rest)

put-length :
    (k : String) (v : List String) (caught : Caught) → length (put k v caught) ≤ suc (length caught)
put-length k v [] = omega arith
put-length k v ((j, w) ∷ rest) = elim (Bool-cases (j == k)) [
  | inl same ↦ rw (same, put) (omega arith)
  | inr other ↦ rw (other, put) (omega (arith, put-length k v rest))
]

pub caught_from-length :
    (caught : Caught) (ds : List Defect)
    → length (caught_from caught ds) ≤ length caught + length ds
unfolding caught_from
caught_from-length caught [] = omega arith
caught_from-length caught (d ∷ ds) =
    omega (arith, caught_from-length (put d.id [] caught) ds, put-length d.id [] caught)

catch_all-length :
    (voice : String) (dids : List String) (caught : Caught)
    → length (catch_all voice dids caught) ≡ length caught
unfolding catch_all
catch_all-length voice [] caught = refl
catch_all-length voice (did ∷ dids) caught =
    catch_all-length voice dids (catch did voice caught) ∙ catch-length did voice caught

module _ (hit : Detection → Defect → Bool) (defects : List Defect) where
  score_voice-length :
      (voice : String) (dets : List Detection) (caught : Caught)
      → length (score_voice hit defects voice dets caught) ≡ length caught
  unfolding score_voice
  score_voice-length voice [] caught = refl
  score_voice-length voice (det ∷ dets) caught =
      score_voice-length voice dets (catch_all voice (hit_ids hit defects det) caught)
      ∙ catch_all-length voice (hit_ids hit defects det) caught

  pub score_voices-length :
      (detections : List (String × List Detection)) (caught : Caught)
      → length (score_voices hit defects detections caught) ≡ length caught
  unfolding score_voices
  score_voices-length [] caught = refl
  score_voices-length ((voice, dets) ∷ rest) caught =
      score_voices-length rest (score_voice hit defects voice dets caught)
      ∙ score_voice-length voice dets caught

  -- A detection of the voice hits a defect with this id.
  abbrev pub caught_in : String → List Detection → Bool
  caught_in id dets = any (λ det. contains (hit_ids hit defects det) id) dets

  uncaught-score_voice :
      (voice id : String) (dets : List Detection) (caught : Caught)
      → contains (uncaught (score_voice hit defects voice dets caught)) id
        ≡ (contains (uncaught caught) id && not (caught_in id dets))
  unfolding score_voice
  uncaught-score_voice voice id [] caught = ground arith
  uncaught-score_voice voice id (det ∷ dets) caught = ground (
    arith,
    uncaught-score_voice voice id dets (catch_all voice (hit_ids hit defects det) caught),
    uncaught-catch_all voice id (hit_ids hit defects det) caught,
  )

  uncaught-score_voices :
      (id : String) (detections : List (String × List Detection)) (caught : Caught)
      → contains (uncaught (score_voices hit defects detections caught)) id ≡ (
          contains (uncaught caught) id
          && not (any (λ (voice, dets). caught_in id dets) detections))
  unfolding score_voices
  uncaught-score_voices id [] caught = ground arith
  uncaught-score_voices id ((voice, dets) ∷ rest) caught = ground (
    arith,
    uncaught-score_voices id rest (score_voice hit defects voice dets caught),
    uncaught-score_voice voice id dets caught,
  )

uncaught-put :
    (k id : String) (caught : Caught)
    → contains (uncaught (put k [] caught)) id ≡ (contains (uncaught caught) id || k == id)
uncaught-put k id [] = ground arith
uncaught-put k id ((j, []) ∷ rest) = elim (Bool-cases (j == k)) [
  | inl same ↦ rw (same, put) (ground (arith, eq_iff j k, same))
  | inr other ↦ rw (other, put) (ground (arith, uncaught-put k id rest))
]
uncaught-put k id ((j, v ∷ vs) ∷ rest) = elim (Bool-cases (j == k)) [
  | inl same ↦ rw (same, put) (ground arith)
  | inr other ↦ rw (other, put) (uncaught-put k id rest)
]

uncaught-caught_from :
    (id : String) (caught : Caught) (ds : List Defect)
    → contains (uncaught (caught_from caught ds)) id
      ≡ (contains (uncaught caught) id || contains (map (λ d. d.id) ds) id)
unfolding caught_from
uncaught-caught_from id caught [] = ground arith
uncaught-caught_from id caught (d ∷ ds) =
    ground (arith, uncaught-caught_from id (put d.id [] caught) ds, uncaught-put d.id id caught)

-- The shared blind spot of a panel holds an identifier exactly where it is the identifier of a
-- planted defect and no detection of any voice matches a defect with that identifier.
pub score-blind :
    (lower : List ℕ → List ℕ) (tol : ℤ) (defects : List Defect)
    (detections : List (String × List Detection)) (id : String)
    → contains (score lower tol defects detections).shared_blind_spot id ≡ (
        contains (map (λ d. d.id) defects) id
        && not (any (λ (voice, dets). caught_in (matches lower tol) defects id dets) detections))
unfolding score
score-blind lower tol defects detections id =
    contains-sorted
      (uncaught (score_voices (matches lower tol) defects detections (caught_from [] defects))) id
    ∙ uncaught-score_voices (matches lower tol) defects id detections (caught_from [] defects)
    ∙ ap
        (λ b.
          b
          && not (any (λ (voice, dets). caught_in (matches lower tol) defects id dets) detections))
        (uncaught-caught_from id [] defects)
