-- ===== src/Gate/Declared.antt =====
-- The ids of a manifest that `load_manifest` returns.
use fv.Prelude.{
  ℕ, suc, String, Bool, true, false, ◌&&◌, ◌||◌, none, some, List, [], ◌∷◌, ◌++◌, ◌==◌, ◌≡◌, refl,
  ap, ◌∙◌, arith, all, contains, map, eq_iff, subst, Option-cases, Bool-cases, inl, inr,
}
use fv.Prelude.Errors.{ok, >>=-eq-ok, ok-injective}
use fv.Json.{Value, Fields, as_obj, as_str, as_list, get}
use fv.Text.{obligation_id, producer_claim_id}
use fv.Gate.Run.{lookup}
use fv.Gate.Distinct.{distinct}
use fv.Gate.Manifest.{
  obligation_entry, entries_from, obligation_entries, Declared, declare, declare_all, collections,
  collection_of, no_obligations, resolve, Manifest, load_manifest,
}

-- The grammars that an obligation's id matches.
abbrev pub declarable : String → Bool
declarable c = obligation_id c && producer_claim_id c

names_of {ℓ} : {A : Type ℓ} → List (String × A) → List String
names_of xs = map (λ (c, a). c) xs

-- An entry that is an object with an id of both grammars.
pub record Named (v : Value) (entry : String × Fields) : Type 0 where
  pub shape : as_obj v ≡ some entry.1
  pub id : as_str (get "id" entry.1) ≡ some entry.0
  pub first : obligation_id entry.0 ≡ true
  pub second : producer_claim_id entry.0 ≡ true

pub obligation_entry-Named :
    (collection : String) (index : ℕ) (v : Value) {entry : String × Fields}
    → obligation_entry collection index v ≡ ok entry
    → Named v entry
unfolding obligation_entry
obligation_entry-Named collection index v h = elim (Option-cases (as_obj v)) [
  | inl bare ↦ absurd (cc (rw (bare, obligation_entry) at h))
  | inr (item, shape) ↦ elim (Option-cases (as_str (get "id" item))) [
    | inl nameless ↦ absurd (cc (rw (shape, nameless, obligation_entry) at h))
    | inr (c, named) ↦ elim (Bool-cases (obligation_id c)) [
      | inr other ↦ absurd (cc (rw (shape, named, other, obligation_entry) at h))
      | inl first ↦ elim (Bool-cases (producer_claim_id c)) [
        | inr other ↦ absurd (cc (rw (shape, named, first, other, obligation_entry) at h))
        | inl second ↦
            subst (Named v) (ok-injective (rw (shape, named, first, second, obligation_entry) at h))
              (record { shape = shape; id = named; first = first; second = second })
      ]
    ]
  ]
]

entries_declarable :
    (collection : String) (index : ℕ) (vs : List Value) {entries : List (String × Fields)}
    → entries_from collection index vs ≡ ok entries
    → all declarable (names_of entries) ≡ true
unfolding entries_from names_of
entries_declarable collection index [] h =
    subst (λ es. all declarable (names_of es) ≡ true) (ok-injective h) refl
entries_declarable collection index (v ∷ vs) h =
    let (entry, q, h1) = >>=-eq-ok (obligation_entry collection index v) _ h in
    let (rest, q', h2) = >>=-eq-ok (entries_from collection (suc index) vs) _ h1 in
    let n = obligation_entry-Named collection index v q in
    subst (λ es. all declarable (names_of es) ≡ true) (ok-injective h2)
      (rw (n.first, n.second) (entries_declarable collection (suc index) vs q'))

collection_declarable :
    (manifest : Fields) (collection : String) {entries : List (String × Fields)}
    → obligation_entries manifest collection ≡ ok entries
    → all declarable (names_of entries) ≡ true
unfolding obligation_entries
collection_declarable manifest collection h =
    elim (Option-cases (as_list (collection_of collection manifest))) [
      | inl other ↦ absurd (cc (rw (other, obligation_entries) at h))
      | inr (vs, listed) ↦ entries_declarable collection 0 vs (rw (listed, obligation_entries) at h)
    ]

-- The obligations so far: no id twice, each of the grammars, and the same ids with a kind.
record Sound (d : Declared) : Type 0 where
  apart : distinct d.required ≡ true
  named : all declarable d.required ≡ true
  kept : names_of d.kinds ≡ d.required

contains_snoc :
    (xs : List String) (x t : String) → contains (xs ++ x ∷ []) t ≡ (contains xs t || (x == t))
contains_snoc [] x t = ground arith
contains_snoc (y ∷ ys) x t = ground (arith, contains_snoc ys x t)

distinct_snoc :
    (xs : List String) (x : String)
    → distinct xs ≡ true
    → contains xs x ≡ false
    → distinct (xs ++ x ∷ []) ≡ true
distinct_snoc [] x h k = refl
distinct_snoc (y ∷ ys) x h k =
    ground (arith, contains_snoc ys x y, distinct_snoc ys x, eq_iff x y, eq_iff y x)

all_snoc :
    (p : String → Bool) (xs : List String) (x : String)
    → all p xs ≡ true
    → p x ≡ true
    → all p (xs ++ x ∷ []) ≡ true
all_snoc p [] x h k = rw k refl
all_snoc p (y ∷ ys) x h k = ground (arith, all_snoc p ys x)

names_of_snoc :
    (xs : List (String × String)) (c k : String)
    → names_of (xs ++ (c, k) ∷ []) ≡ names_of xs ++ c ∷ []
unfolding names_of
names_of_snoc [] c k = refl
names_of_snoc ((d, j) ∷ xs) c k = ap (λ r. d ∷ r) (names_of_snoc xs c k)

lookup-contains :
    (c : String) (xs : List (String × String))
    → lookup c xs ≡ none
    → contains (names_of xs) c ≡ false
unfolding names_of
lookup-contains c [] h = refl
lookup-contains c ((d, j) ∷ xs) h = ground (arith, lookup-contains c xs)

declared-Sound :
    (collection kind : String) (entries : List (String × Fields)) (d : Declared) {d' : Declared}
    → Sound d
    → all declarable (names_of entries) ≡ true
    → declare collection kind d entries ≡ ok d'
    → Sound d'
unfolding declare names_of
declared-Sound collection kind [] d sound named h = subst Sound (ok-injective h) sound
declared-Sound collection kind ((c, item) ∷ rest) d sound named h =
    elim (Option-cases (lookup c d.kinds)) [
      | inr (before, found) ↦ absurd (cc (rw (found, declare) at h))
      | inl fresh ↦
          declared-Sound collection kind rest _
            (record {
              apart = distinct_snoc d.required c sound.apart (
                  subst (λ xs. contains xs c ≡ false) sound.kept (lookup-contains c d.kinds fresh));
              named = all_snoc declarable d.required c sound.named (ground arith);
              kept = names_of_snoc d.kinds c kind ∙ ap (λ xs. xs ++ c ∷ []) sound.kept;
            })
            (ground arith) (rw (fresh, declare) at h)
    ]

all_declared-Sound :
    (manifest : Fields) (cs : List (String × String)) (d : Declared) {d' : Declared}
    → Sound d
    → declare_all manifest cs d ≡ ok d'
    → Sound d'
unfolding declare_all
all_declared-Sound manifest [] d sound h = subst Sound (ok-injective h) sound
all_declared-Sound manifest ((collection, kind) ∷ cs) d sound h =
    let (entries, q, h1) = >>=-eq-ok (obligation_entries manifest collection) _ h in
    let (next, q', h2) = >>=-eq-ok (declare collection kind d entries) _ h1 in
    all_declared-Sound manifest cs next
      (declared-Sound collection kind entries d sound (collection_declarable manifest collection q)
        q')
      h2

-- In a manifest that is loaded no id is declared twice, in one collection or in two, each id
-- matches the grammar of obligations and that of the producer's claims, and the ids that have a
-- kind are the required ones, in the same order.
pub load_manifest-distinct :
    (v : Value) (m : Manifest)
    → load_manifest v ≡ ok m
    → (distinct m.required ≡ true)
      × (all declarable m.required ≡ true)
      × (map (λ (c, kind). c) m.kinds ≡ m.required)
unfolding load_manifest names_of
load_manifest-distinct v m loaded = elim (Option-cases (as_obj v)) [
  | inl other ↦ absurd (cc (rw (other, load_manifest) at loaded))
  | inr (manifest, found) ↦
      let (d, q, h1) =
        >>=-eq-ok (declare_all manifest collections no_obligations) _
          (rw (found, load_manifest) at loaded) in
      let (claims, q', h2) = >>=-eq-ok (resolve d.kinds d.system_claims) _ h1 in
      let none_yet : Sound no_obligations = record { apart = refl; named = refl; kept = refl } in
      let sound = all_declared-Sound manifest collections no_obligations none_yet q in
      subst
        (λ n.
          (distinct n.required ≡ true)
          × (all declarable n.required ≡ true)
          × (map (λ (c, kind). c) n.kinds ≡ n.required))
        (ok-injective h2) (sound.apart, sound.named, sound.kept)
]
