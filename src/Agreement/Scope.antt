-- ===== src/Agreement/Scope.antt =====
-- The scope that a verified run prints: which part of it comes from the records.
use Prim.Native.String.append
use fv.Prelude.{ℕ, ◌<>◌, if◌then◌else◌, is_nil, String, List, [], ◌∷◌, ◌==◌}
use fv.Text.Scope.{plain}
use fv.Json.{Fields}
use fv.Gate.Run.{Run, join}

-- A text up to the first `;` or `]`, and the rest from there on.
abbrev pub scope_parts : List ℕ → List ℕ × List ℕ
scope_parts [] = ([], [])
scope_parts (c ∷ cs) =
    let (inside, rest) = scope_parts cs in if plain c then (c ∷ inside, rest) else ([], c ∷ cs)

abbrev pub scope_opening : String
scope_opening = "VERIFIED[profile="

-- What the gate itself puts behind the profiles: how the run was bound, the end of the scope, and
-- the waived claims.
abbrev pub qualifiers : String → List String → String
qualifiers binding waived =
    (if binding == "recomputed" then "" else "; binding=" <> binding)
    <> ("]" <> (if is_nil waived then "" else " (waived: " <> (join "," waived <> ")")))
