-- ===== src/Policy/Evaluate.antt =====
-- internal/policy/eval.go: `Evaluate`, `AddFindings` and the health score.
pub mod Findings
pub mod Score
pub mod Merging
use hsm_doctor.Base.{
  ℕ, ◌+◌, String, Bool, true, false, List, [], ◌∷◌, ◌++◌, ◌==◌, if◌then◌else◌, keep, any,
}
use hsm_doctor.Base.Int.{ℤ, pos, ◌-ℤ◌, wrap64, ltb_ℤ}
use hsm_doctor.Base.Sort.{sort_by, by_rank}
use hsm_doctor.Base.Text.{◌+++◌, join}
use hsm_doctor.Base.Clock.{Time, Format}
use hsm_doctor.Inventory.{Inventory, Object}
use hsm_doctor.Policy.Severity.{
  Severity, critical, high, medium, low, info, unknown, Scoring, rank, penalty,
}
use hsm_doctor.Policy.Condition.{Rule, Config, is_empty, token_scoped, scoring_of}
use hsm_doctor.Policy.Facts.{Facts, build_facts}
use hsm_doctor.Policy.Match.{match_object}

pub record Finding : Type 0 where
  pub rule_id : String
  pub title : String
  pub severity : Severity
  pub object : String
  pub detail : String
  pub remediation : String
  pub reference : String

pub record Result : Type 0 where
  pub findings : List Finding
  pub score : ℤ
  pub scoring : Scoring

-- `class label (id 01)`; internal/snapshot/diff.go has the same function.
unfoldable pub object_ref : Object → String
object_ref o =
    o.class
    +++ (if o.label == "" then "" else " " +++ o.label)
    +++ (if o.id == "" then "" else " (id " +++ o.id +++ ")")

unfoldable pub finding_of : Rule → String → String → Finding
finding_of r object detail = record {
  rule_id = r.id;
  title = r.title;
  severity = r.severity;
  object = object;
  detail = detail;
  remediation = r.remediation;
  reference = r.reference;
}

abbrev pub more_severe : Finding → Finding → Bool
more_severe = by_rank (λ f. rank f.severity)

unfoldable pub sort_findings : List Finding → List Finding
sort_findings = sort_by more_severe

-- The loop `score -= penalty`, in 64 bits.
unfoldable pub subtract : Scoring → ℤ → List Finding → ℤ
subtract s score [] = score
subtract s score (f ∷ fs) = subtract s (wrap64 (score -ℤ penalty s f.severity)) fs

unfoldable pub score_of : Scoring → List Finding → ℤ
score_of s fs = let n = subtract s (pos 100) fs in if ltb_ℤ n (pos 0) then pos 0 else n

unfoldable pub add_findings : Result → List Finding → Result
add_findings r [] = r
add_findings r (f ∷ extra) =
    let merged = sort_findings (r.findings ++ f ∷ extra) in
    record r { findings = merged; score = score_of r.scoring merged }

abbrev pub same_severity : Severity → Severity → Bool
same_severity critical critical = true
same_severity high high = true
same_severity medium medium = true
same_severity low low = true
same_severity info info = true
same_severity (unknown s) (unknown t) = s == t
same_severity _ _ = false

-- `CountBySeverity()[s]`
unfoldable pub count_by_severity : List Finding → Severity → ℕ
count_by_severity [] s = 0
count_by_severity (f ∷ fs) s =
    (if same_severity f.severity s then 1 else 0) + count_by_severity fs s

-- `available[name]`
unfoldable pub advertises : Inventory → String → Bool
advertises inv name = any (λ m. m.name == name) inv.mechanisms

unfoldable pub mechanism_findings : Inventory → Rule → List Finding
mechanism_findings inv r =
    if is_empty r.match_on.mechanism_any_of
    then if any (advertises inv) r.match_on.mechanism_missing
      then []
      else finding_of r "" ("token advertises none of: " +++ join ", " r.match_on.mechanism_missing)
        ∷ []
    else let hits = keep (advertises inv) r.match_on.mechanism_any_of in
      if is_empty hits then [] else finding_of r "" ("token advertises: " +++ join ", " hits) ∷ []

module _ (fmt : Format) (f : Facts) (r : Rule) where
  -- What the loop over the objects appends for one object.
  unfoldable pub object_finding : Object → List Finding
  object_finding o =
      let (matched, detail) = match_object fmt r o f in
      if matched then finding_of r (object_ref o) detail ∷ [] else []

  unfoldable pub object_findings : List Object → List Finding
  object_findings [] = []
  object_findings (o ∷ rest) = object_finding o ++ object_findings rest

module _ (fmt : Format) (inv : Inventory) (f : Facts) where
  unfoldable pub rule_findings : Rule → List Finding
  rule_findings r =
      if token_scoped r.match_on
      then mechanism_findings inv r
      else object_findings fmt f r inv.objects

  unfoldable pub all_findings : List Rule → List Finding
  all_findings [] = []
  all_findings (r ∷ rest) = rule_findings r ++ all_findings rest

unfoldable pub evaluate : Format → Inventory → Config → Time → Result
evaluate fmt inv cfg now =
    let found = sort_findings (all_findings fmt inv (build_facts inv now) cfg.rules) in
    record { findings = found; score = score_of (scoring_of cfg) found; scoring = scoring_of cfg }
