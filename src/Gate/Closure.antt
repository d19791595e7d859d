-- ===== src/Gate/Closure.antt =====
-- The required set that `main` judges holds the dependencies of every system claim in it: one pass
-- is enough, because `load_manifest` lets a claim depend on invariants and witnesses only.
use fv.Prelude.{
  contains-filter, String, Bool, true, false, ◌||◌, not, Option, none, some, List, [], ◌∷◌, ◌++◌,
  ◌==◌, ◌≡◌, refl, sym, ◌⊎◌, inl, inr, arith, filter, contains, map, Bool-cases, Option-cases,
  eq_iff, subst,
}
use fv.Prelude.Errors.{ok, >>=-eq-ok, ok-injective}
use fv.Json.{Value, Fields, get, as_obj}
use fv.Text.{obligation_id, evidence_tool_id}
use fv.Gate.Run.{lookup, or_nil}
use fv.Gate.Manifest.{
  id_list, dependency_kinds, check_dependencies, validate_system_claim, resolve, Manifest,
  load_manifest, added_by, expand_from, expand, declare_all, collections, no_obligations,
}

-- The kind of an invariant or a witness.
abbrev pub is_dependency : Option String → Bool
is_dependency none = false
is_dependency (some kind) = contains dependency_kinds kind

checked :
    (claim_id d : String) (kinds : List (String × String)) (ds : List String)
    → check_dependencies claim_id kinds ds ≡ ok tt
    → contains ds d ≡ true
    → is_dependency (lookup d kinds) ≡ true
unfolding check_dependencies
checked claim_id d kinds [] h m = absurd (cc)
checked claim_id d kinds (x ∷ xs) h m = ground (arith, eq_iff x d, checked claim_id d kinds xs)

claim_checked :
    (claim_id d : String) (claim : Fields) (kinds : List (String × String))
    {lists : List String × List String}
    → validate_system_claim claim_id claim kinds ≡ ok lists
    → contains lists.0 d ≡ true
    → is_dependency (lookup d kinds) ≡ true
unfolding validate_system_claim
claim_checked claim_id d claim kinds h m =
    let (deps, q, h1) =
      >>=-eq-ok (id_list claim_id "depends_on" (get "depends_on" claim) obligation_id) _ h in
    let (u, q', h2) = >>=-eq-ok (check_dependencies claim_id kinds deps) _ h1 in
    let (evidence, q'', h3) =
      >>=-eq-ok
        (id_list claim_id "required_evidence" (get "required_evidence" claim) evidence_tool_id) _
        h2 in
    checked claim_id d kinds deps q' (subst (λ l. contains l.0 d ≡ true) (sym (ok-injective h3)) m)

abbrev listed_for : String → List (String × (List String × List String)) → List String
listed_for cid lists = or_nil (lookup cid (map (λ (c, l). (c, l.0)) lists))

-- The dependencies that are resolved for a claim are invariants and witnesses.
resolved :
    (cid d : String) (kinds : List (String × String)) (claims : List (String × Fields))
    {lists : List (String × (List String × List String))}
    → resolve kinds claims ≡ ok lists
    → contains (listed_for cid lists) d ≡ true
    → is_dependency (lookup d kinds) ≡ true
unfolding resolve
resolved cid d kinds [] h m =
    absurd (cc (subst (λ ls. contains (listed_for cid ls) d ≡ true) (sym (ok-injective h)) m))
resolved cid d kinds ((c, item) ∷ rest) h m =
    let (l, q, h1) = >>=-eq-ok (validate_system_claim c item kinds) _ h in
    let (others, q', h2) = >>=-eq-ok (resolve kinds rest) _ h1 in
    let here : contains (listed_for cid ((c, l) ∷ others)) d ≡ true =
      subst (λ ls. contains (listed_for cid ls) d ≡ true) (sym (ok-injective h2)) m in
    elim (Bool-cases (c == cid)) [
      | inl same ↦ claim_checked c d item kinds q (rw same at here)
      | inr other ↦ resolved cid d kinds rest q' (rw other at here)
    ]

contains-append :
    (xs ys : List String) (t : String) → contains (xs ++ ys) t ≡ (contains xs t || contains ys t)
contains-append [] ys t = refl
contains-append (x ∷ xs) ys t = ground (arith, contains-append xs ys t)

module _ (m : Manifest) where
  -- What was required stays required.
  expand_kept :
      (cids required : List String) (c : String)
      → contains required c ≡ true
      → contains (expand_from m cids required) c ≡ true
  unfolding expand_from
  expand_kept [] required c h = h
  expand_kept (x ∷ xs) required c h =
      expand_kept xs (required ++ added_by m required x) c
        (rw (contains-append required (added_by m required x) c, h) refl)

  added_by_system :
      (required : List String) (cid : String)
      → lookup cid m.kinds ≡ some "system_claim"
      → added_by m required cid
        ≡ filter (λ d. not (contains required d)) (or_nil (lookup cid m.depends))
  added_by_system required cid system = rw (system, added_by) refl

  -- A claim's dependencies are there once the loop has reached it.
  added :
      (required : List String) (cid d : String)
      → lookup cid m.kinds ≡ some "system_claim"
      → contains (or_nil (lookup cid m.depends)) d ≡ true
      → contains (required ++ added_by m required cid) d ≡ true
  added required cid d system h =
      rw
        (
          contains-append required (added_by m required cid) d,
          added_by_system required cid system,
          contains-filter (λ t. not (contains required t)) (or_nil (lookup cid m.depends)) d,
          h,
        )
        (ground arith)

  expand_added :
      (cids required : List String) (cid d : String)
      → contains cids cid ≡ true
      → lookup cid m.kinds ≡ some "system_claim"
      → contains (or_nil (lookup cid m.depends)) d ≡ true
      → contains (expand_from m cids required) d ≡ true
  unfolding expand_from
  expand_added [] required cid d listed system h = absurd (cc)
  expand_added (x ∷ xs) required cid d listed system h = elim (Bool-cases (x == cid)) [
    | inl same ↦
        let e = (eq_iff x cid).0 same in
        expand_kept xs (required ++ added_by m required x) d (
          subst (λ y. contains (required ++ added_by m required y) d ≡ true) (sym e)
            (added required cid d system h))
    | inr other ↦
        expand_added xs (required ++ added_by m required x) cid d (rw other at listed) system h
  ]

  module _
      (sound : (cid d : String)
        → contains (or_nil (lookup cid m.depends)) d ≡ true
        → is_dependency (lookup d m.kinds) ≡ true) where
    added_kind :
        (required : List String) (cid d : String)
        → contains (added_by m required cid) d ≡ true
        → is_dependency (lookup d m.kinds) ≡ true
    added_kind required cid d h = sound cid d (
        ground (
          arith,
          contains-filter (λ t. not (contains required t)) (or_nil (lookup cid m.depends)) d,
          h,
        ))

    -- What the loop adds is an invariant or a witness.
    expand_origin :
        (cids required : List String) (c : String)
        → contains (expand_from m cids required) c ≡ true
        → (contains required c ≡ true) ⊎ (is_dependency (lookup c m.kinds) ≡ true)
    unfolding expand_from
    expand_origin [] required c h = inl h
    expand_origin (x ∷ xs) required c h =
        elim (expand_origin xs (required ++ added_by m required x) c h) [
          | inr kind ↦ inr kind
          | inl grown ↦ elim (Bool-cases (contains required c)) [
            | inl old ↦ inl old
            | inr new ↦ inr (
                added_kind required x c
                  (ground (arith, contains-append required (added_by m required x) c)))
          ]
        ]

-- In a manifest that is loaded, claims depend on invariants and witnesses.
pub loaded_sound :
    (v : Value) (m : Manifest)
    → load_manifest v ≡ ok m
    → (cid d : String) → contains (or_nil (lookup cid m.depends)) d ≡ true
    → is_dependency (lookup d m.kinds) ≡ true
unfolding load_manifest
loaded_sound v m loaded cid d h = elim (Option-cases (as_obj v)) [
  | inl absent ↦ absurd (cc (rw (absent, load_manifest) at loaded))
  | inr (manifest, found) ↦
      let (declared, q, h1) =
        >>=-eq-ok (declare_all manifest collections no_obligations) _
          (rw (found, load_manifest) at loaded) in
      let (claims, q', h2) = >>=-eq-ok (resolve declared.kinds declared.system_claims) _ h1 in
      let e = ok-injective h2 in
      subst (λ n. is_dependency (lookup d n.kinds) ≡ true) e
        (resolved cid d declared.kinds declared.system_claims q'
          (subst (λ n. contains (or_nil (lookup cid n.depends)) d ≡ true) (sym e) h))
]

-- In the set that the gate judges, every dependency of a system claim of the set is there too, for
-- every manifest that `load_manifest` returns and every list of claims that was asked for.
pub expand_closed :
    (v : Value) (m : Manifest) (asked : List String) (cid d : String)
    → load_manifest v ≡ ok m
    → contains (expand m asked) cid ≡ true
    → lookup cid m.kinds ≡ some "system_claim"
    → contains (or_nil (lookup cid m.depends)) d ≡ true
    → contains (expand m asked) d ≡ true
unfolding expand
expand_closed v m asked cid d loaded judged system h =
    elim (expand_origin m (loaded_sound v m loaded) asked asked cid judged) [
      | inl asked_for ↦ expand_added m asked asked cid d asked_for system h
      | inr kind ↦ absurd (cc (rw system at kind))
    ]
