-- ===== src/Kmip/Evaluate/Findings.antt =====
-- internal/kmip/eval.go: which findings `Evaluate` reports, in which order, and the score.
use hsm_doctor.Base.{
  ◌-◌, ◌^◌, ◌≤◌, ◌≡◌, refl, ◌∙◌, ◌↔◌, inl, inr, List, [], ◌∷◌, total, Any, Elem, Elem-append_iff,
  Bool-cases,
}
use hsm_doctor.Base.Int.{ℤ, pos, ◌-ℤ◌, wrap64}
use hsm_doctor.Base.Sort.{IsSorted, sort_by-IsSorted, sort_by-Any_iff, by_rank-IsOrder}
use hsm_doctor.Base.Casing.{Casing}
use hsm_doctor.Policy.Severity.{
  Severity, critical, high, medium, low, info, unknown, default_scoring, penalty,
}
use hsm_doctor.Policy.Evaluate.{Finding, more_severe, sort_findings}
use hsm_doctor.Policy.Evaluate as Scan
use hsm_doctor.Policy.Evaluate.Score.{IsPenal, cost, score_of_exact}
use hsm_doctor.Kmip.{Object, Inventory, Rule, RuleSet, severity_penalty}
use hsm_doctor.Kmip.Evaluate.{
  match_rule, finding_of, rule_finding, object_findings, all_findings, subtract, score_of, evaluate,
}
use hsm_doctor.Kmip.Evaluate.Requirements.{Meets, match_rule_iff}

module _ (c : Casing) (g : Finding) where
  -- The finding of a rule at an object that meets its condition.
  abbrev pub FiresAt : Object → Rule → Type 0
  FiresAt o r = Meets c o r.match_on × (g ≡ finding_of r o (match_rule c o r.match_on).1)

  rule_finding-Elem_iff : (o : Object) (r : Rule) → Elem g (rule_finding c o r) ↔ FiresAt o r
  unfolding rule_finding
  rule_finding-Elem_iff o r =
      let (to, from) = match_rule_iff c o r.match_on in
      elim (Bool-cases (match_rule c o r.match_on).0) [
        | inl e ↦ rw e (elim [ inl p ↦ (to e, p) | inr n ↦ absurd n ], λ h. inl h.1)
        | inr e ↦ rw e (λ n. absurd n, λ h. cc (from h.0))
      ]

  object_findings-Elem_iff :
      (o : Object) (rs : List Rule) → Elem g (object_findings c rs o) ↔ Any (FiresAt o) rs
  unfolding object_findings
  object_findings-Elem_iff o [] = (λ n. n, λ n. n)
  object_findings-Elem_iff o (r ∷ rs) =
      let (to, from) = Elem-append_iff g (rule_finding c o r) (object_findings c rs o) in
      let (to₁, from₁) = rule_finding-Elem_iff o r in
      let (to₂, from₂) = object_findings-Elem_iff o rs in
      (
        λ m. elim (to m) [ inl a ↦ inl (to₁ a) | inr b ↦ inr (to₂ b) ],
        elim [ inl h ↦ from (inl (from₁ h)) | inr h ↦ from (inr (from₂ h)) ],
      )

  all_findings-Elem_iff :
      (rs : List Rule) (os : List Object)
      → Elem g (all_findings c rs os) ↔ Any (λ o. Any (FiresAt o) rs) os
  unfolding all_findings
  all_findings-Elem_iff rs [] = (λ n. n, λ n. n)
  all_findings-Elem_iff rs (o ∷ os) =
      let (to, from) = Elem-append_iff g (object_findings c rs o) (all_findings c rs os) in
      let (to₁, from₁) = object_findings-Elem_iff o rs in
      let (to₂, from₂) = all_findings-Elem_iff rs os in
      (
        λ m. elim (to m) [ inl a ↦ inl (to₁ a) | inr b ↦ inr (to₂ b) ],
        elim [ inl h ↦ from (inl (from₁ h)) | inr h ↦ from (inr (from₂ h)) ],
      )

-- The findings run from the most to the least severe, and a finding is among them exactly when some
-- object meets the condition of some rule, with the rule's texts and the object's name.
pub evaluate-findings :
    (c : Casing) (inv : Inventory) (cfg : RuleSet) (g : Finding)
    → IsSorted more_severe (evaluate c inv cfg).findings
      × (Elem g (evaluate c inv cfg).findings
          ↔ Any (λ o. Any (FiresAt c g o) cfg.rules) inv.objects)
unfolding evaluate sort_findings
evaluate-findings c inv cfg g =
    let (to, from) = all_findings-Elem_iff c g cfg.rules inv.objects in
    let (to', from') =
      sort_by-Any_iff more_severe (λ x. g ≡ x) (all_findings c cfg.rules inv.objects) in
    (sort_by-IsSorted (by_rank-IsOrder _) _, (λ m. to (to' m), λ h. from' (from h)))

penalty-default : (s : Severity) → severity_penalty s ≡ penalty default_scoring s
unfolding severity_penalty penalty
penalty-default critical = refl
penalty-default high = refl
penalty-default medium = refl
penalty-default low = refl
penalty-default info = refl
penalty-default (unknown t) = refl

subtract-scan : (n : ℤ) (fs : List Finding) → subtract n fs ≡ Scan.subtract default_scoring n fs
unfolding subtract Scan.subtract
subtract-scan n [] = refl
subtract-scan n (f ∷ fs) =
    rw (penalty-default f.severity)
      (subtract-scan (wrap64 (n -ℤ penalty default_scoring f.severity)) fs)

score_of-scan : (fs : List Finding) → score_of fs ≡ Scan.score_of default_scoring fs
unfolding score_of Scan.score_of
score_of-scan fs = rw (subtract-scan (pos 100) fs)

default-IsPenal : IsPenal default_scoring
default-IsPenal = record { critical = refl; high = refl; medium = refl; low = refl }

-- If the default penalties of the findings add up to 2^63 at most, the score is that of a scan with
-- the default scoring, and it is 100 less this sum, or 0 where the sum is larger.
pub evaluate-score :
    (c : Casing) (inv : Inventory) (cfg : RuleSet)
    → total (cost default_scoring) (evaluate c inv cfg).findings ≤ 2 ^ 63
    → let r = evaluate c inv cfg in
      (r.score ≡ Scan.score_of default_scoring r.findings)
      × (r.score ≡ pos (100 - total (cost default_scoring) r.findings))
unfolding evaluate
evaluate-score c inv cfg b =
    let fs = (evaluate c inv cfg).findings in
    (score_of-scan fs, score_of-scan fs ∙ score_of_exact default_scoring fs default-IsPenal b)
