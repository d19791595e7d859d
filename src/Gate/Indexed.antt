-- ===== src/Gate/Indexed.antt =====
-- What the index of `main` holds: for each claim its last record, and whether it has two.
use fv.Prelude.{
  String, Bool, true, false, ◌&&◌, ◌||◌, Option, none, some, List, [], ◌∷◌, ◌==◌, ◌≡◌, refl, sym,
  ◌∙◌, arith, length, leb, contains, eq_iff, if◌then◌else◌, Bool-cases, Option-cases, inl, inr,
}
use fv.Json.{Value}
use fv.Gate.Sharing.{Index, find_record, claim_id_of, add_record, index_onto, index_records}

abbrev is_record_of : String → Value → Bool
is_record_of cid v = elim (claim_id_of v) [ none ↦ false | some c ↦ c == cid ]

-- The records of a claim, in order.
abbrev pub records_of : String → List Value → List Value
records_of cid [] = []
records_of cid (v ∷ vs) =
    let rest = records_of cid vs in if is_record_of cid v then v ∷ rest else rest

abbrev pub last_of : Option Value → List Value → Option Value
last_of found [] = found
last_of found (v ∷ vs) = last_of (some v) vs

abbrev known : Option Value → Bool
known none = false
known (some v) = true

step_found :
    (cid : String) (ix : Index) (v : Value)
    → find_record cid (add_record ix v).by_claim
      ≡ (if is_record_of cid v then some v else find_record cid ix.by_claim)
unfolding add_record
step_found cid ix v = elim (Option-cases (claim_id_of v)) [
  | inl nameless ↦ ground arith
  | inr (c, named) ↦ ground arith
]

step_twice :
    (cid : String) (ix : Index) (v : Value)
    → contains (add_record ix v).duplicates cid
      ≡ (contains ix.duplicates cid || (is_record_of cid v && known (find_record cid ix.by_claim)))
unfolding add_record
step_twice cid ix v = elim (Option-cases (claim_id_of v)) [
  | inl nameless ↦ rw (nameless, add_record) (ground arith)
  | inr (c, named) ↦ elim (Bool-cases (c == cid)) [
    | inl same ↦ rw (named, add_record, sym ((eq_iff c cid).0 same)) (ground (arith, eq_iff c c))
    | inr other ↦ rw (named, add_record) (ground arith)
  ]
]

-- The last record of a claim that a list of records leaves behind.
indexed_found :
    (cid : String) (ix : Index) (vs : List Value)
    → find_record cid (index_onto ix vs).by_claim
      ≡ last_of (find_record cid ix.by_claim) (records_of cid vs)
unfolding index_onto
indexed_found cid ix [] = refl
indexed_found cid ix (v ∷ vs) =
    indexed_found cid (add_record ix v) vs ∙ rw (step_found cid ix v) (ground arith)

abbrev twice : Option Value → List Value → Bool
twice none vs = leb 2 (length vs)
twice (some _) vs = leb 1 (length vs)

twice_step :
    (found : Option Value) (v : Value) (vs : List Value) (mine dup : Bool)
    → ((dup || (mine && known found)) || twice (if mine then some v else found) vs)
      ≡ (dup || twice found (if mine then v ∷ vs else vs))
twice_step found v vs mine dup = ground arith

indexed_twice :
    (cid : String) (ix : Index) (vs : List Value)
    → contains (index_onto ix vs).duplicates cid
      ≡ (contains ix.duplicates cid || twice (find_record cid ix.by_claim) (records_of cid vs))
unfolding index_onto
indexed_twice cid ix [] = ground arith
indexed_twice cid ix (v ∷ vs) =
    indexed_twice cid (add_record ix v) vs
    ∙ rw (step_found cid ix v, step_twice cid ix v)
        (twice_step (find_record cid ix.by_claim) v (records_of cid vs) (is_record_of cid v)
          (contains ix.duplicates cid))

-- For every list of records and every claim: the claim is marked as a duplicate if and only if two
-- records or more name it, and the record that is looked up for it is the last that names it.
pub index_records_lem :
    (vs : List Value) (cid : String)
    → (contains (index_records vs).duplicates cid ≡ leb 2 (length (records_of cid vs)))
      × (find_record cid (index_records vs).by_claim ≡ last_of none (records_of cid vs))
unfolding index_records
index_records_lem vs cid = (
  indexed_twice cid (record { by_claim = []; duplicates = [] }) vs,
  indexed_found cid (record { by_claim = []; duplicates = [] }) vs,
)
