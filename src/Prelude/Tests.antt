-- ===== src/Prelude/Tests.antt =====
-- Boolean tests, the conditional, and the splits on a computed value.
use Prim.Native.Nat.{ℕ, compare, Ordering}
use Prim.Native.String.{String}
use mathlib.Core.Path.{◌≡◌, refl}
use mathlib.Core.Logic.{◌⊎◌, inl, inr}
use mathlib.Core.Bool.{Bool, true, false, ◌&&◌, not}
use mathlib.Core.Option.{Option, none, some}
use text.Mathlib.Text
use native.Mathlib.Omega.{arith}

infix 1 if◌then◌else◌
abbrev pub if◌then◌else◌ {ℓ} : {A : Type ℓ} → Bool → A → A → A
if true then x else y = x
if false then x else y = y

abbrev pub leb : ℕ → ℕ → Bool
leb a b = elim (compare a b) [ Ordering.gt ↦ false | _ ↦ true ]

abbrev pub nat_eq : ℕ → ℕ → Bool
nat_eq a b = elim (compare a b) [ Ordering.eq ↦ true | _ ↦ false ]

-- Equality of texts.
infix 50 ◌==◌
abbrev pub ◌==◌ : String → String → Bool
s == t = Text.◌==◌ s t

pub Bool-cases : (b : Bool) → (b ≡ true) ⊎ (b ≡ false)
Bool-cases true = inl refl
Bool-cases false = inr refl

pub Option-cases {ℓ} : {A : Type ℓ} (o : Option A) → (o ≡ none) ⊎ ((a : A) × (o ≡ some a))
Option-cases none = inl refl
Option-cases (some a) = inr (a, refl)

-- The parts of a conjunction.
pub split_and : (a : Bool) {b : Bool} → (a && b) ≡ true → (a ≡ true) × (b ≡ true)
split_and true h = (refl, h)
split_and false h = absurd (cc)

pub split_not : (a : Bool) {b : Bool} → (not a && b) ≡ true → (a ≡ false) × (b ≡ true)
split_not false h = (refl, h)
split_not true h = absurd (cc)

pub join_and : {a b : Bool} → a ≡ true → b ≡ true → (a && b) ≡ true
join_and h k = ground arith
