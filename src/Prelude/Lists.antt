-- ===== src/Prelude/Lists.antt =====
-- Lists: Boolean searches, membership of texts, and lists of defects that are empty.
use text.Mathlib.TextEquality.{eq_iff}
use Prim.Native.Nat.{ℕ, suc}
use Prim.Native.String.{String}
use mathlib.Core.Path.{◌≡◌, refl}
use mathlib.Core.Bool.{Bool, true, false, ◌&&◌, ◌||◌}
use mathlib.Core.List.{List, [], ◌∷◌, ◌++◌}
use native.Mathlib.Omega.{arith}
use fv.Prelude.Tests.{if◌then◌else◌, ◌==◌}

module _ {ℓ} {A : Type ℓ} where
  abbrev pub length : List A → ℕ
  length [] = 0
  length (x ∷ xs) = suc (length xs)

  abbrev pub is_nil : List A → Bool
  is_nil [] = true
  is_nil (x ∷ xs) = false

  abbrev pub any : (A → Bool) → List A → Bool
  any p [] = false
  any p (x ∷ xs) = p x || any p xs

  abbrev pub all : (A → Bool) → List A → Bool
  all p [] = true
  all p (x ∷ xs) = p x && all p xs

  abbrev pub filter : (A → Bool) → List A → List A
  filter p [] = []
  filter p (x ∷ xs) = let rest = filter p xs in if p x then x ∷ rest else rest

  abbrev pub concat_map {κ} : {B : Type κ} → (A → List B) → List A → List B
  concat_map f [] = []
  concat_map f (x ∷ xs) = f x ++ concat_map f xs

  -- `[d] if test else []`
  abbrev pub when : Bool → A → List A
  when b d = if b then d ∷ [] else []

  pub when-eq-nil : (b : Bool) (d : A) → when b d ≡ [] → b ≡ false
  when-eq-nil b d h = ground arith

  pub append-eq-nil : (xs ys : List A) → xs ++ ys ≡ [] → (xs ≡ []) × (ys ≡ [])
  append-eq-nil [] ys h = (refl, h)
  append-eq-nil (x ∷ xs) ys h = (ground arith, ground arith)

  pub is_nil-append : (xs ys : List A) → is_nil (xs ++ ys) ≡ (is_nil xs && is_nil ys)
  is_nil-append [] ys = refl
  is_nil-append (x ∷ xs) ys = refl

  pub nil_of_is_nil : (xs : List A) → is_nil xs ≡ true → xs ≡ []
  nil_of_is_nil [] h = refl
  nil_of_is_nil (x ∷ xs) h = ground arith

abbrev pub contains : List String → String → Bool
contains [] s = false
contains (t ∷ ts) s = t == s || contains ts s

-- `list(dict.fromkeys(xs))`: the first of equal texts is kept.
abbrev pub dedup_onto : List String → List String → List String
dedup_onto seen [] = []
dedup_onto seen (x ∷ xs) = elim (contains seen x) [
  | true ↦ dedup_onto seen xs
  | false ↦ x ∷ dedup_onto (x ∷ seen) xs
]

abbrev pub dedup : List String → List String
dedup = dedup_onto []

-- What reports nothing by one rule reports nothing by a rule that follows from it.
pub concat_map-eq-nil {ℓ κ μ} :
    {A : Type ℓ} {B : Type κ} {C : Type μ} (f : A → List B) (g : A → List C) (xs : List A)
    → ((x : A) → f x ≡ [] → g x ≡ [])
    → concat_map f xs ≡ []
    → concat_map g xs ≡ []
concat_map-eq-nil f g [] step h = refl
concat_map-eq-nil f g (x ∷ xs) step h =
    let (first, rest) = append-eq-nil (f x) (concat_map f xs) h in
    rw (step x first) (concat_map-eq-nil f g xs step rest)

pub contains-filter :
    (p : String → Bool) (xs : List String) (t : String)
    → contains (filter p xs) t ≡ (contains xs t && p t)
contains-filter p [] t = refl
contains-filter p (x ∷ xs) t = ground (arith, eq_iff x t, contains-filter p xs t)
