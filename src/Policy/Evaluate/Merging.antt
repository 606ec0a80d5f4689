-- ===== src/Policy/Evaluate/Merging.antt =====
-- internal/policy/eval.go: `AddFindings`, by which vendor findings and advisories join a result.
use mathlib.Core.List.{append-nil, append_assoc}
use hsm_doctor.Base.{
  ◌-◌, ◌^◌, ◌≤◌, ◌≡◌, refl, ap, ◌∙◌, sym, List, [], ◌∷◌, ◌++◌, arith, total, total-append, All,
}
use hsm_doctor.Base.Int.{pos}
use hsm_doctor.Base.Sort.{
  IsSorted, sort_by-IsSorted, by_rank-IsOrder, sort_by-append, sort_by-total,
}
use hsm_doctor.Base.Clock.{Time, Format}
use hsm_doctor.Inventory.{Inventory}
use hsm_doctor.Policy.Severity.{Scoring, info, penalty, rank}
use hsm_doctor.Policy.Condition.{Config}
use hsm_doctor.Policy.Evaluate.{
  Finding, Result, more_severe, sort_findings, score_of, add_findings, evaluate,
}
use hsm_doctor.Policy.Evaluate.Score.{IsPenal, cost, score_of_exact}

-- The findings are sorted, and the score is theirs.
pub record IsConsistent (r : Result) : Type 0 where
  pub sorted : IsSorted more_severe r.findings
  pub scored : r.score ≡ score_of r.scoring r.findings

-- An evaluation gives a consistent result.
pub evaluate-IsConsistent :
    (fmt : Format) (inv : Inventory) (cfg : Config) (now : Time)
    → IsConsistent (evaluate fmt inv cfg now)
unfolding evaluate sort_findings
evaluate-IsConsistent fmt inv cfg now = record {
  sorted = sort_by-IsSorted (by_rank-IsOrder _) _;
  scored = refl;
}

-- Merging findings into a consistent result gives a consistent result.
pub add_findings-IsConsistent :
    (r : Result) (extra : List Finding) → IsConsistent r → IsConsistent (add_findings r extra)
unfolding add_findings sort_findings
add_findings-IsConsistent r [] h = h
add_findings-IsConsistent r (f ∷ extra) h = record {
  sorted = sort_by-IsSorted (by_rank-IsOrder _) _;
  scored = refl;
}

-- Merging two batches one after the other is merging both at once: the same findings in the same
-- order, and the same score.
pub add_findings-add_findings :
    (r : Result) (a b : List Finding) → add_findings (add_findings r a) b ≡ add_findings r (a ++ b)
unfolding add_findings sort_findings
add_findings-add_findings r [] b = refl
add_findings-add_findings r (x ∷ a) [] = ap (λ l. add_findings r (x ∷ l)) (sym (append-nil a))
add_findings-add_findings r (x ∷ a) (y ∷ b) =
    rw (sort_by-append (by_rank-IsOrder (λ f. rank f.severity)) (r.findings ++ x ∷ a) (y ∷ b))
      (rw (append_assoc r.findings (x ∷ a) (y ∷ b)) refl)

total_info :
    (s : Scoring) (l : List Finding) → All (λ f. f.severity ≡ info) l → total (cost s) l ≡ 0
unfolding penalty
total_info s [] h = refl
total_info s (f ∷ l) (e, h) = rw e (omega (arith, total_info s l h))

-- Findings of severity info never change the score of a consistent result, if no penalty is
-- negative and the penalties of its findings add up to 2^63 at most.
pub add_findings-info :
    (r : Result) (extra : List Finding)
    → IsConsistent r
    → IsPenal r.scoring
    → total (cost r.scoring) r.findings ≤ 2 ^ 63
    → All (λ f. f.severity ≡ info) extra
    → (add_findings r extra).score ≡ r.score
unfolding add_findings sort_findings
add_findings-info r [] c p b h = refl
add_findings-info r (x ∷ extra) c p b h =
    let s = r.scoring in
    let merged = sort_findings (r.findings ++ x ∷ extra) in
    let same : total (cost s) merged ≡ total (cost s) r.findings =
      sort_by-total more_severe (cost s) (r.findings ++ x ∷ extra)
      ∙ omega (arith, total-append (cost s) r.findings (x ∷ extra), total_info s (x ∷ extra) h) in
    score_of_exact s merged p (omega arith)
    ∙ ap (λ n. pos (100 - n)) same
    ∙ sym (score_of_exact s r.findings p b)
    ∙ sym c.scored
