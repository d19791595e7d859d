-- ===== src/Text/Scope.antt =====
-- The characters of a profile id.
use fv.Prelude.{
  ℕ, String, Bool, true, List, [], ◌∷◌, ◌≡◌, refl, ◌&&◌, ◌||◌, not, all, nat_eq, arith,
}
use fv.Text.{codes, mem, is_alnum, identifier, profile_id}

-- Neither `;`, which separates the qualifiers of a scope, nor `]`, which ends it.
abbrev pub plain : ℕ → Bool
plain c = not (nat_eq c b';') && not (nat_eq c b']')

rest_plain :
    (cs : List ℕ)
    → all (λ d. is_alnum d || mem d (b'.' ∷ b'_' ∷ b'+' ∷ b'/' ∷ b'-' ∷ [])) cs ≡ true
    → all plain cs ≡ true
unfolding is_alnum
rest_plain [] h = refl
rest_plain (c ∷ cs) h = ground (arith, rest_plain cs)

pub profile_id-plain : (s : String) → profile_id s ≡ true → all plain (codes s) ≡ true
unfolding profile_id identifier is_alnum
profile_id-plain s h = all_plain (codes s) h
  where
    all_plain :
        (cs : List ℕ)
        → identifier (b'.' ∷ b'_' ∷ b'+' ∷ b'/' ∷ b'-' ∷ []) cs ≡ true
        → all plain cs ≡ true
    all_plain [] h = absurd (cc)
    all_plain (c ∷ cs) h = ground (arith, rest_plain cs)
