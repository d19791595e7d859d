-- ===== src/Recall/Union.antt =====
-- The defects that the panel caught.
use fv.Prelude.{
  ℕ, ◌≤◌, String, Bool, ◌&&◌, ◌||◌, List, [], ◌∷◌, ◌==◌, ◌≡◌, refl, ◌∙◌, ap, any, map, contains,
  length, arith, eq_iff, Bool-cases, inl, inr,
}
use fv.Json.{ℤ}
use fv.Pyramid.Machine.{put}
use fv.Recall.{
  Defect, Detection, matches, hit_ids, Caught, caught_from, catch, catch_all, score_voice,
  score_voices, caught_ids, score,
}
use fv.Recall.BlindSpot.{caught_in, parts-length, score_voices-length, caught_from-length}

-- The ids that have an entry.
abbrev keys : Caught → List String
keys caught = map (λ (k, voices). k) caught

keys-catch : (did voice : String) (caught : Caught) → keys (catch did voice caught) ≡ keys caught
unfolding catch
keys-catch did voice [] = refl
keys-catch did voice ((k, voices) ∷ rest) = ap (λ ks. k ∷ ks) (keys-catch did voice rest)

keys-catch_all :
    (voice : String) (dids : List String) (caught : Caught)
    → keys (catch_all voice dids caught) ≡ keys caught
unfolding catch_all
keys-catch_all voice [] caught = refl
keys-catch_all voice (did ∷ dids) caught =
    keys-catch_all voice dids (catch did voice caught) ∙ keys-catch did voice caught

caught_ids-catch :
    (did voice id : String) (caught : Caught)
    → contains (caught_ids (catch did voice caught)) id
      ≡ (contains (caught_ids caught) id || (did == id && contains (keys caught) id))
unfolding catch
caught_ids-catch did voice id [] = ground arith
caught_ids-catch did voice id ((k, []) ∷ rest) = elim (Bool-cases (k == did)) [
  | inl same ↦ rw same (
      ground
        (arith, same, eq_iff k did, eq_iff did id, eq_iff k id, caught_ids-catch did voice id rest))
  | inr other ↦ rw other (
      ground (
        arith,
        other,
        eq_iff k did,
        eq_iff did id,
        eq_iff k id,
        caught_ids-catch did voice id rest,
      ))
]
caught_ids-catch did voice id ((k, v ∷ vs) ∷ rest) = elim (Bool-cases (k == did)) [
  | inl same ↦ rw same (ground (arith, caught_ids-catch did voice id rest))
  | inr other ↦ rw other (ground (arith, caught_ids-catch did voice id rest))
]

caught_ids-catch_all :
    (voice id : String) (dids : List String) (caught : Caught)
    → contains (caught_ids (catch_all voice dids caught)) id
      ≡ (contains (caught_ids caught) id || (contains dids id && contains (keys caught) id))
unfolding catch_all
caught_ids-catch_all voice id [] caught = ground arith
caught_ids-catch_all voice id (did ∷ dids) caught = ground (
  arith,
  caught_ids-catch_all voice id dids (catch did voice caught),
  caught_ids-catch did voice id caught,
  ap (λ ks. contains ks id) (keys-catch did voice caught),
)

module _ (hit : Detection → Defect → Bool) (defects : List Defect) where
  keys-score_voice :
      (voice : String) (dets : List Detection) (caught : Caught)
      → keys (score_voice hit defects voice dets caught) ≡ keys caught
  unfolding score_voice
  keys-score_voice voice [] caught = refl
  keys-score_voice voice (det ∷ dets) caught =
      keys-score_voice voice dets (catch_all voice (hit_ids hit defects det) caught)
      ∙ keys-catch_all voice (hit_ids hit defects det) caught

  caught_ids-score_voice :
      (voice id : String) (dets : List Detection) (caught : Caught)
      → contains (caught_ids (score_voice hit defects voice dets caught)) id ≡ (
          contains (caught_ids caught) id
          || (caught_in hit defects id dets && contains (keys caught) id))
  unfolding score_voice
  caught_ids-score_voice voice id [] caught = ground arith
  caught_ids-score_voice voice id (det ∷ dets) caught =
      let hits = hit_ids hit defects det in
      ground (
        arith,
        caught_ids-score_voice voice id dets (catch_all voice hits caught),
        caught_ids-catch_all voice id hits caught,
        ap (λ ks. contains ks id) (keys-catch_all voice hits caught),
      )

  caught_ids-score_voices :
      (id : String) (detections : List (String × List Detection)) (caught : Caught)
      → contains (caught_ids (score_voices hit defects detections caught)) id ≡ (
          contains (caught_ids caught) id
          || (any (λ (voice, dets). caught_in hit defects id dets) detections
              && contains (keys caught) id))
  unfolding score_voices
  caught_ids-score_voices id [] caught = ground arith
  caught_ids-score_voices id ((voice, dets) ∷ rest) caught = ground (
    arith,
    caught_ids-score_voices id rest (score_voice hit defects voice dets caught),
    caught_ids-score_voice voice id dets caught,
    ap (λ ks. contains ks id) (keys-score_voice voice dets caught),
  )

caught_ids-put :
    (k : String) (caught : Caught) → caught_ids caught ≡ [] → caught_ids (put k [] caught) ≡ []
caught_ids-put k [] h = refl
caught_ids-put k ((j, []) ∷ rest) h = elim (Bool-cases (j == k)) [
  | inl same ↦ rw (same, put) h
  | inr other ↦ rw (other, put) (caught_ids-put k rest h)
]
caught_ids-put k ((j, v ∷ vs) ∷ rest) h = absurd (cc)

keys-put :
    (k id : String) (caught : Caught)
    → contains (keys (put k [] caught)) id ≡ (contains (keys caught) id || k == id)
keys-put k id [] = ground arith
keys-put k id ((j, voices) ∷ rest) = elim (Bool-cases (j == k)) [
  | inl same ↦ rw (same, put) (ground (arith, eq_iff j k, same))
  | inr other ↦ rw (other, put) (ground (arith, keys-put k id rest))
]

-- No defect is caught before the loop.
caught_ids-caught_from :
    (caught : Caught) (ds : List Defect)
    → caught_ids caught ≡ []
    → caught_ids (caught_from caught ds) ≡ []
unfolding caught_from
caught_ids-caught_from caught [] h = h
caught_ids-caught_from caught (d ∷ ds) h =
    caught_ids-caught_from (put d.id [] caught) ds (caught_ids-put d.id caught h)

keys-caught_from :
    (id : String) (caught : Caught) (ds : List Defect)
    → contains (keys (caught_from caught ds)) id
      ≡ (contains (keys caught) id || contains (map (λ d. d.id) ds) id)
unfolding caught_from
keys-caught_from id caught [] = ground arith
keys-caught_from id caught (d ∷ ds) =
    ground (arith, keys-caught_from id (put d.id [] caught) ds, keys-put d.id id caught)

-- What the panel caught holds an identifier exactly where it is the identifier of a planted defect and
-- a detection of some voice matches a defect with that identifier; and it is at most as long as the
-- list of the planted defects, also where two of them have one identifier.
pub score-union :
    (lower : List ℕ → List ℕ) (tol : ℤ) (defects : List Defect)
    (detections : List (String × List Detection)) (id : String)
    → (contains (score lower tol defects detections).union_caught id ≡ (
        contains (map (λ d. d.id) defects) id
        && any (λ (voice, dets). caught_in (matches lower tol) defects id dets) detections))
      × (length (score lower tol defects detections).union_caught
          ≤ (score lower tol defects detections).defect_count)
unfolding score
score-union lower tol defects detections id =
    let hit = matches lower tol in
    let planted = caught_from [] defects in
    let caught = score_voices hit defects detections planted in
    (
      ground (
        arith,
        caught_ids-score_voices hit defects id detections planted,
        ap (λ ids. contains ids id) (caught_ids-caught_from [] defects refl),
        keys-caught_from id [] defects,
      ),
      omega (
        arith,
        parts-length caught,
        score_voices-length hit defects detections planted,
        caught_from-length [] defects,
      ),
    )
