-- ===== src/Agreement/Obligations.antt =====
-- A manifest that the gate loads the dashboard reads too, with the same obligations.
use fv.Prelude.{
  ℕ, suc, String, none, some, List, [], ◌∷◌, ◌≡◌, refl, sym, ap, ◌∙◌, map, subst, Option-cases, inl,
  inr,
}
use fv.Prelude.Errors.{ok, >>=-eq-ok, ok-injective}
use fv.Json.{Value, Fields, as_list, as_obj}
use fv.Text.Blank.{obligation_id-blank}
use fv.Gate.Run.{lookup}
use fv.Gate.Declared.{Named, obligation_entry-Named}
use fv.Gate.Manifest.{
  resolve, obligation_entry, entries_from, obligation_entries, Declared, declare, declare_all,
  collection_of, collections, no_obligations, Manifest, load_manifest,
}
use fv.Dashboard.Manifest.{
  Loaded, require, read_named, read_entry, read_entries, read_collections, nothing_loaded,
  read_manifest,
}
use fv.Agreement.Loaders.{
  read_claims, read_claims-resolve, specs_of, Readable, Same, declare_one, require-declare_one,
  declare-Readable,
}

-- An entry that the gate accepts is required by the dashboard, if its id is new.
read_entry-require :
    (collection kind : String) (index : ℕ) (v : Value) (c : String) (item : Fields) (l : Loaded)
    → Named v (c, item)
    → lookup c l.kinds ≡ none
    → read_entry collection kind index v l ≡ require c kind item l
unfolding read_entry read_named
read_entry-require collection kind index v c item l n fresh =
    rw
      (
        read_entry,
        n.shape,
        n.id,
        read_named,
        obligation_id-blank c n.first,
        n.first,
        n.second,
        fresh,
      )
      refl

entries_read :
    (collection kind : String) (index : ℕ) (vs : List Value) (entries : List (String × Fields))
    (d : Declared) (l : Loaded) {d' : Declared}
    → entries_from collection index vs ≡ ok entries
    → declare collection kind d entries ≡ ok d'
    → Readable d'.system_claims
    → Same d l
    → (l' : Loaded) × (read_entries collection kind index vs l ≡ ok l') × Same d' l'
unfolding entries_from declare read_entries
entries_read collection kind index [] entries d l {d'} h k r same = (
  l,
  refl,
  subst (λ e. Same e l)
      (ok-injective (subst (λ es. declare collection kind d es ≡ ok d') (sym (ok-injective h)) k))
      same,
)
entries_read collection kind index (v ∷ vs) entries d l {d'} h k r same =
    let ((c, item), q, h1) = >>=-eq-ok (obligation_entry collection index v) _ h in
    let (rest, q', h2) = >>=-eq-ok (entries_from collection (suc index) vs) _ h1 in
    let k' : declare collection kind d ((c, item) ∷ rest) ≡ ok d' =
      subst (λ es. declare collection kind d es ≡ ok d') (sym (ok-injective h2)) k in
    elim (Option-cases (lookup c d.kinds)) [
      | inr (before, found) ↦ absurd (cc (rw (found, declare) at k'))
      | inl fresh ↦
          let after : declare collection kind (declare_one c kind item d) rest ≡ ok d' =
            rw (fresh, declare) at k' in
          let (next, required, same') =
            require-declare_one c kind item d l same
              (declare-Readable collection kind rest (declare_one c kind item d) after r) in
          let (l', others, same'') =
            entries_read collection kind (suc index) vs rest (declare_one c kind item d) next q'
              after r same' in
          (
            l',
            rw
                (
                  read_entry-require collection kind index v c item l
                      (obligation_entry-Named collection index v q)
                      (ap (lookup c) same.kinds ∙ fresh),
                  required,
                )
                others,
            same'',
          )
    ]

declare_all-Readable :
    (manifest : Fields) (cs : List (String × String)) (d : Declared) {d' : Declared}
    → declare_all manifest cs d ≡ ok d'
    → Readable d'.system_claims
    → Readable d.system_claims
unfolding declare_all
declare_all-Readable manifest [] d h r =
    subst (λ e. Readable e.system_claims) (sym (ok-injective h)) r
declare_all-Readable manifest ((collection, kind) ∷ cs) d h r =
    let (entries, q, h1) = >>=-eq-ok (obligation_entries manifest collection) _ h in
    let (next, q', h2) = >>=-eq-ok (declare collection kind d entries) _ h1 in
    declare-Readable collection kind entries d q' (declare_all-Readable manifest cs next h2 r)

listed_entries :
    (manifest : Fields) (collection : String) {entries : List (String × Fields)}
    → obligation_entries manifest collection ≡ ok entries
    → (vs : List Value) × (as_list (collection_of collection manifest) ≡ some vs)
      × (entries_from collection 0 vs ≡ ok entries)
unfolding obligation_entries
listed_entries manifest collection h =
    elim (Option-cases (as_list (collection_of collection manifest))) [
      | inl other ↦ absurd (cc (rw (other, obligation_entries) at h))
      | inr (vs, listed) ↦ (vs, listed, rw (listed, obligation_entries) at h)
    ]

read_collections-ok :
    (manifest : Fields) (collection kind : String) (cs : List (String × String)) (vs : List Value)
    (l next : Loaded) {last : Loaded}
    → as_list (collection_of collection manifest) ≡ some vs
    → read_entries collection kind 0 vs l ≡ ok next
    → read_collections manifest cs next ≡ ok last
    → read_collections manifest ((collection, kind) ∷ cs) l ≡ ok last
unfolding read_collections
read_collections-ok manifest collection kind cs vs l next listed first others =
    rw (read_collections, listed, first) others

collections_read :
    (manifest : Fields) (cs : List (String × String)) (d : Declared) (l : Loaded) {d' : Declared}
    → declare_all manifest cs d ≡ ok d'
    → Readable d'.system_claims
    → Same d l
    → (l' : Loaded) × (read_collections manifest cs l ≡ ok l') × Same d' l'
unfolding declare_all read_collections
collections_read manifest [] d l h r same = (l, refl, subst (λ e. Same e l) (ok-injective h) same)
collections_read manifest ((collection, kind) ∷ cs) d l h r same =
    let (entries, q, h1) = >>=-eq-ok (obligation_entries manifest collection) _ h in
    let (next, q', h2) = >>=-eq-ok (declare collection kind d entries) _ h1 in
    let (vs, listed, from) = listed_entries manifest collection q in
    let (l1, first, same1) =
      entries_read collection kind 0 vs entries d l from q'
        (declare_all-Readable manifest cs next h2 r) same in
    let (l2, others, same2) = collections_read manifest cs next l1 h2 r same1 in
    (l2, read_collections-ok manifest collection kind cs vs l l1 listed first others, same2)

none_yet : Same no_obligations nothing_loaded
unfolding read_claims
none_yet = record { required = refl; kinds = refl; claims = refl }

depends_of_specs :
    (claims : List (String × (List String × List String)))
    → map {B = String × List String} (λ (c, spec). (c, spec.depends_on)) (specs_of claims)
      ≡ map {B = String × List String} (λ (c, lists). (c, lists.0)) claims
depends_of_specs [] = refl
depends_of_specs ((c, lists) ∷ rest) = ap (λ r. (c, lists.0) ∷ r) (depends_of_specs rest)

evidence_of_specs :
    (claims : List (String × (List String × List String)))
    → map {B = String × List String} (λ (c, spec). (c, spec.required_evidence)) (specs_of claims)
      ≡ map {B = String × List String} (λ (c, lists). (c, lists.1)) claims
evidence_of_specs [] = refl
evidence_of_specs ((c, lists) ∷ rest) = ap (λ r. (c, lists.1) ∷ r) (evidence_of_specs rest)

-- A manifest that the gate loads is read by the dashboard: the same required ids in the same order,
-- with the same kinds, and for each system claim the dependencies and the tools of the gate.
pub read_manifest-load_manifest :
    (v : Value) (m : Manifest)
    → load_manifest v ≡ ok m
    → (l : Loaded) × (read_manifest v ≡ ok l)
      × (l.required ≡ m.required)
      × (l.kinds ≡ m.kinds)
      × (map {B = String × List String} (λ (c, spec). (c, spec.depends_on)) l.system_claims
          ≡ m.depends)
      × (map {B = String × List String} (λ (c, spec). (c, spec.required_evidence)) l.system_claims
          ≡ m.evidence)
unfolding load_manifest read_manifest
read_manifest-load_manifest v m h = elim (Option-cases (as_obj v)) [
  | inl other ↦ absurd (cc (rw (other, load_manifest) at h))
  | inr (manifest, found) ↦
      let (d, q, h1) =
        >>=-eq-ok (declare_all manifest collections no_obligations) _
          (rw (found, load_manifest) at h) in
      let (claims, q', h2) = >>=-eq-ok (resolve d.kinds d.system_claims) _ h1 in
      let read = read_claims-resolve d.kinds d.system_claims q' in
      let (l, r, same) =
        collections_read manifest collections no_obligations nothing_loaded q
          (specs_of claims, read) none_yet in
      let e = ok-injective h2 in
      let specs = ok-injective (sym same.claims ∙ read) in
      (
        l,
        rw (found, read_manifest) r,
        same.required ∙ ap (λ n. n.required) e,
        same.kinds ∙ ap (λ n. n.kinds) e,
        ap (map {B = String × List String} (λ (c, spec). (c, spec.depends_on))) specs
            ∙ (depends_of_specs claims ∙ ap (λ n. n.depends) e),
        ap (map {B = String × List String} (λ (c, spec). (c, spec.required_evidence))) specs
            ∙ (evidence_of_specs claims ∙ ap (λ n. n.evidence) e),
      )
]
