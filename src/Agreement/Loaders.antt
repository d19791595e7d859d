-- ===== src/Agreement/Loaders.antt =====
-- The steps of the two loaders: what `declare` adds `require` adds.
use fv.Prelude.{
  String, List, [], ◌∷◌, ◌++◌, ◌==◌, ◌≡◌, refl, sym, ap, map, subst, if◌then◌else◌, Bool-cases,
  Option-cases, inl, inr,
}
use fv.Prelude.Errors.{Result, ok, ◌>>=◌, >>=-eq-ok, ok-injective}
use fv.Json.{Fields}
use fv.Gate.Run.{lookup}
use fv.Gate.Manifest.{validate_system_claim, resolve, Declared, declare}
use fv.Dashboard.Claim.{SystemClaim}
use fv.Dashboard.Manifest.{ReadError, read_claim, Loaded, require}
use fv.Agreement.Manifest.{read_claim-validate_system_claim}

-- What the dashboard reads of the system claims of the gate.
unfoldable pub read_claims : List (String × Fields) → Result ReadError (List (String × SystemClaim))
read_claims [] = ok []
read_claims ((c, item) ∷ rest) = do
  spec ← read_claim c item
  others ← read_claims rest
  ok ((c, spec) ∷ others)

-- The two lists of a claim, as the dashboard keeps them.
abbrev pub spec_of : List String × List String → SystemClaim
spec_of lists = record { depends_on = lists.0; required_evidence = lists.1 }

abbrev pub specs_of : List (String × (List String × List String)) → List (String × SystemClaim)
specs_of claims = map (λ (c, lists). (c, spec_of lists)) claims

pub read_claims-resolve :
    (kinds : List (String × String)) (cs : List (String × Fields))
    {claims : List (String × (List String × List String))}
    → resolve kinds cs ≡ ok claims
    → read_claims cs ≡ ok (specs_of claims)
unfolding resolve read_claims
read_claims-resolve kinds [] h = ap (λ cs. ok (specs_of cs)) (ok-injective h)
read_claims-resolve kinds ((c, item) ∷ rest) h =
    let (lists, q, h1) = >>=-eq-ok (validate_system_claim c item kinds) _ h in
    let (others, q', h2) = >>=-eq-ok (resolve kinds rest) _ h1 in
    rw (read_claim-validate_system_claim c item kinds q, read_claims-resolve kinds rest q')
      (ap (λ cs. ok (specs_of cs)) (ok-injective h2))

read_claims_snoc :
    (cs : List (String × Fields)) (c : String) (item : Fields) {specs : List (String × SystemClaim)}
    {spec : SystemClaim}
    → read_claims cs ≡ ok specs
    → read_claim c item ≡ ok spec
    → read_claims (cs ++ (c, item) ∷ []) ≡ ok (specs ++ (c, spec) ∷ [])
unfolding read_claims
read_claims_snoc [] c item {spec} h k = rw k (ap (λ ss. ok (ss ++ (c, spec) ∷ [])) (ok-injective h))
read_claims_snoc ((d, first) ∷ cs) c item {spec} h k =
    let (s, q, h1) = >>=-eq-ok (read_claim d first) _ h in
    let (others, q', h2) = >>=-eq-ok (read_claims cs) _ h1 in
    rw (q, read_claims_snoc cs c item q' k) (ap (λ ss. ok (ss ++ (c, spec) ∷ [])) (ok-injective h2))

-- The claims so far can be read.
abbrev pub Readable : List (String × Fields) → Type 0
Readable cs = (specs : List (String × SystemClaim)) × (read_claims cs ≡ ok specs)

snoc_parts :
    (cs : List (String × Fields)) (c : String) (item : Fields)
    → Readable (cs ++ (c, item) ∷ [])
    → Readable cs × ((spec : SystemClaim) × (read_claim c item ≡ ok spec))
unfolding read_claims
snoc_parts [] c item (specs, h) =
    let (spec, q, h1) = >>=-eq-ok (read_claim c item) _ h in (([], refl), (spec, q))
snoc_parts ((d, first) ∷ cs) c item (specs, h) =
    let (s, q, h1) = >>=-eq-ok (read_claim d first) _ h in
    let (others, q', h2) = >>=-eq-ok (read_claims (cs ++ (c, item) ∷ [])) _ h1 in
    let ((before, r), last) = snoc_parts cs c item (others, q') in
    (((d, s) ∷ before, rw (q, r) refl), last)

-- The gate's obligations so far, and the dashboard's.
pub record Same (d : Declared) (l : Loaded) : Type 0 where
  pub required : l.required ≡ d.required
  pub kinds : l.kinds ≡ d.kinds
  pub claims : read_claims d.system_claims ≡ ok l.system_claims

-- The gate's obligations with one more.
abbrev pub declare_one : String → String → Fields → Declared → Declared
declare_one c kind item d = record {
  required = d.required ++ c ∷ [];
  kinds = d.kinds ++ (c, kind) ∷ [];
  system_claims =
      if kind == "system_claim" then d.system_claims ++ (c, item) ∷ [] else d.system_claims;
}

declare_one-Readable :
    (c kind : String) (item : Fields) (d : Declared)
    → Readable (declare_one c kind item d).system_claims
    → Readable d.system_claims
declare_one-Readable c kind item d h = elim (Bool-cases (kind == "system_claim")) [
  | inl system ↦ (snoc_parts d.system_claims c item (rw system at h)).0
  | inr other ↦ rw other at h
]

pub require-declare_one :
    (c kind : String) (item : Fields) (d : Declared) (l : Loaded)
    → Same d l
    → Readable (declare_one c kind item d).system_claims
    → (next : Loaded) × (require c kind item l ≡ ok next) × Same (declare_one c kind item d) next
unfolding require
require-declare_one c kind item d l same h = elim (Bool-cases (kind == "system_claim")) [
  | inl system ↦
      let (spec, q) = (snoc_parts d.system_claims c item (rw system at h)).1 in
      (
        record {
          required = l.required ++ c ∷ [];
          kinds = l.kinds ++ (c, kind) ∷ [];
          system_claims = l.system_claims ++ (c, spec) ∷ [];
        },
        rw (system, q) refl,
        record {
          required = ap (λ xs. xs ++ c ∷ []) same.required;
          kinds = ap (λ xs. xs ++ (c, kind) ∷ []) same.kinds;
          claims = rw system (read_claims_snoc d.system_claims c item same.claims q);
        },
      )
  | inr other ↦ (
    record {
      required = l.required ++ c ∷ [];
      kinds = l.kinds ++ (c, kind) ∷ [];
      system_claims = l.system_claims;
    },
    rw other refl,
    record {
      required = ap (λ xs. xs ++ c ∷ []) same.required;
      kinds = ap (λ xs. xs ++ (c, kind) ∷ []) same.kinds;
      claims = rw other same.claims;
    },
  )
]

pub declare-Readable :
    (collection kind : String) (entries : List (String × Fields)) (d : Declared) {d' : Declared}
    → declare collection kind d entries ≡ ok d'
    → Readable d'.system_claims
    → Readable d.system_claims
unfolding declare
declare-Readable collection kind [] d h r =
    subst (λ e. Readable e.system_claims) (sym (ok-injective h)) r
declare-Readable collection kind ((c, item) ∷ rest) d h r = elim (Option-cases (lookup c d.kinds)) [
  | inr (before, found) ↦ absurd (cc (rw (found, declare) at h))
  | inl fresh ↦ declare_one-Readable c kind item d (
      declare-Readable collection kind rest (declare_one c kind item d) (rw (fresh, declare) at h)
        r)
]
