-- ===== src/Prelude/Errors.antt =====
-- Computations that may raise an exception.
use mathlib.Core.Path.{◌≡◌, refl}

pub data Result {ℓ} (E : Type 0) (A : Type ℓ) : Type ℓ where
  ok : A → Result E A
  raise : E → Result E A

-- An exception skips what is left.
infixl 5 ◌>>=◌
abbrev pub ◌>>=◌ {ℓ κ} :
    {E : Type 0} {A : Type ℓ} {B : Type κ} → Result E A → (A → Result E B) → Result E B
ok value >>= next = next value
raise thrown >>= next = raise thrown

infixl 5 ◌>>◌
abbrev pub ◌>>◌ {ℓ κ} :
    {E : Type 0} {A : Type ℓ} {B : Type κ} → Result E A → Result E B → Result E B
first >> second = first >>= λ ignored. second

-- A do block returns only if its first step does.
pub >>=-eq-ok {ℓ κ} :
    {E : Type 0} {A : Type ℓ} {B : Type κ} (first : Result E A) (next : A → Result E B) {out : B}
    → (first >>= next) ≡ ok out
    → (value : A) × (first ≡ ok value) × (next value ≡ ok out)
>>=-eq-ok (raise thrown) next returned = cc
>>=-eq-ok (ok value) next returned = (value, refl, returned)

pub ok-injective {ℓ} :
    {E : Type 0} {A : Type ℓ} {a b : A} → ◌≡◌ {A = Result E A} (ok a) (ok b) → a ≡ b
ok-injective h = cc
