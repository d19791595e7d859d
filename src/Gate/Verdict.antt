-- ===== src/Gate/Verdict.antt =====
-- The exit status of the gate as a function of the statuses of the claims.
use fv.Prelude.{
  String, true, false, List, [], ◌∷◌, ◌≡◌, refl, arith, is_nil, any, all, ◌&&◌, not, nat_eq,
  Bool-cases, inl, inr,
}
use fv.Gate.Run.{Run, Status, verdict, exit_code, is_failed, is_passed, is_incomplete}
use fv.Gate.Sharing.{Index}

-- A list of statuses has a failure, or an incomplete entry, or only passes.
statuses_split :
    (entries : List (String × Status))
    → any (λ (cid, s). is_failed s) entries ≡ false
    → any (λ (cid, s). is_incomplete s) entries ≡ not (all (λ (cid, s). is_passed s) entries)
statuses_split [] h = refl
statuses_split ((cid, s) ∷ rest) h = ground (arith, statuses_split rest)

failed_not_all :
    (entries : List (String × Status))
    → any (λ (cid, s). is_failed s) entries ≡ true
    → all (λ (cid, s). is_passed s) entries ≡ false
failed_not_all [] h = absurd (cc)
failed_not_all ((cid, s) ∷ rest) h = ground (arith, failed_not_all rest)

-- For every list of judged claims, the exit status of the gate is 1 if and only if a claim FAILed,
-- it is 0 if and only if there is a claim and all of them passed, with a waiver or without, and it
-- is 0, 1 or 3.
pub exit_code-verdict :
    (run : Run) (ix : Index) (entries : List (String × Status))
    → (nat_eq (exit_code (verdict run ix entries)) 1 ≡ any (λ (cid, s). is_failed s) entries)
      × (nat_eq (exit_code (verdict run ix entries)) 0
          ≡ (not (is_nil entries) && all (λ (cid, s). is_passed s) entries))
      × (nat_eq (exit_code (verdict run ix entries)) 3 ≡ (
          not (any (λ (cid, s). is_failed s) entries)
          && not (not (is_nil entries) && all (λ (cid, s). is_passed s) entries)))
unfolding verdict
exit_code-verdict run ix entries = elim (Bool-cases (any (λ (cid, s). is_failed s) entries)) [
  | inl failing ↦ rw (failing, failed_not_all entries failing) (ground arith)
  | inr sound ↦ rw (sound, statuses_split entries sound) (ground arith)
]
