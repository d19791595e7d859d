-- ===== src/Text/Blank.antt =====
-- An identifier is not blank.
use fv.Prelude.{ℕ, String, true, false, List, [], ◌∷◌, ◌≡◌, all, arith}
use fv.Text.{codes, is_alnum, is_space, identifier, obligation_id, evidence_tool_id, blank}

alnum-space : (c : ℕ) → is_alnum c ≡ true → is_space c ≡ false
unfolding is_alnum is_space
alnum-space c h = ground arith

identifier-space : (extra cs : List ℕ) → identifier extra cs ≡ true → all is_space cs ≡ false
unfolding identifier
identifier-space extra [] h = absurd (cc)
identifier-space extra (c ∷ cs) h = ground (arith, alnum-space c)

pub obligation_id-blank : (s : String) → obligation_id s ≡ true → blank s ≡ false
unfolding obligation_id blank
obligation_id-blank s h = identifier-space (b'.' ∷ b'_' ∷ b':' ∷ b'-' ∷ []) (codes s) h

pub evidence_tool_id-blank : (s : String) → evidence_tool_id s ≡ true → blank s ≡ false
unfolding evidence_tool_id blank
evidence_tool_id-blank s h =
    identifier-space (b'.' ∷ b'_' ∷ b':' ∷ b'+' ∷ b'/' ∷ b'-' ∷ []) (codes s) h
