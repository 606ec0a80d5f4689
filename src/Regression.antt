-- ===== src/Regression.antt =====
-- internal/regression/regression.go: whether a scan is worse than the one before it.
pub mod Laws
use hsm_doctor.Base.{
  String, Bool, true, false, not, Option, none, some, List, [], ◌∷◌, ◌++◌, ◌&&◌, ◌||◌,
  if◌then◌else◌,
}
use hsm_doctor.Base.Int.{ℤ, pos, ◌-ℤ◌, wrap64, leb_ℤ}
use hsm_doctor.Base.Sort.{sort_by}
use hsm_doctor.Base.Dict.{Dict, lookup, insert, or_zero, string_eq}
use hsm_doctor.Base.Text.{◌+++◌, decimal_ℤ, str_lt}
use hsm_doctor.Policy.Severity.{Severity, critical, high, medium, low, info, unknown}
use hsm_doctor.Policy.Evaluate.{Finding}

abbrev pub default_score_drop_threshold : ℤ
default_score_drop_threshold = pos 10

pub record SevereFinding : Type 0 where
  pub rule_id : String
  pub title : String
  pub severity : Severity

pub record Regression : Type 0 where
  pub score_delta : ℤ
  pub score_dropped : Bool
  pub new_severe : List SevereFinding
  pub reasons : List String

abbrev pub is_severe : Severity → Bool
is_severe critical = true
is_severe high = true
is_severe _ = false

abbrev pub severity_text : Severity → String
severity_text critical = "critical"
severity_text high = "high"
severity_text medium = "medium"
severity_text low = "low"
severity_text info = "info"
severity_text (unknown s) = s

-- The set `oldSevere`.
pub old_severe : Dict String Bool → List Finding → Dict String Bool
old_severe m [] = m
old_severe m (f ∷ fs) = old_severe (if is_severe f.severity then insert f.rule_id true m else m) fs

-- The loop over the new findings, with the set `seen`.
pub new_loop : Dict String Bool → Dict String Bool → List Finding → List SevereFinding
new_loop old seen [] = []
new_loop old seen (f ∷ fs) =
    let skipped = new_loop old seen fs in
    let taken = new_loop old (insert f.rule_id true seen) fs in
    if not (is_severe f.severity)
      || or_zero false (lookup f.rule_id old)
      || or_zero false (lookup f.rule_id seen)
    then skipped
    else record { rule_id = f.rule_id; title = f.title; severity = f.severity } ∷ taken

abbrev pub by_rule : SevereFinding → SevereFinding → Bool
by_rule a b = str_lt a.rule_id b.rule_id

unfoldable pub new_severe : List Finding → List Finding → List SevereFinding
new_severe old new = sort_by by_rule (new_loop (old_severe [] old) [] new)

abbrev pub severe_reasons : List SevereFinding → List String
severe_reasons [] = []
severe_reasons (f ∷ fs) =
    ("new " +++ severity_text f.severity +++ " finding " +++ f.rule_id +++ ": " +++ f.title)
    ∷ severe_reasons fs

abbrev pub threshold : ℤ → ℤ
threshold drop = if leb_ℤ drop (pos 0) then default_score_drop_threshold else drop

abbrev pub dropped : ℤ → ℤ → ℤ → Bool
dropped old new drop = leb_ℤ (threshold drop) (wrap64 (old -ℤ new))

abbrev pub nothing_new : List SevereFinding → Bool
nothing_new [] = true
nothing_new (f ∷ fs) = false

unfoldable pub detect : ℤ → ℤ → List Finding → List Finding → ℤ → Option Regression
detect old new old_findings new_findings drop =
    let severe = new_severe old_findings new_findings in
    if not (dropped old new drop) && nothing_new severe
    then none
    else some (record {
      score_delta = wrap64 (new -ℤ old);
      score_dropped = dropped old new drop;
      new_severe = severe;
      reasons =
          (if dropped old new drop
            then ("health score dropped "
                +++ decimal_ℤ (wrap64 (old -ℤ new))
                +++ " points ("
                +++ decimal_ℤ old
                +++ " → "
                +++ decimal_ℤ new
                +++ ")")
              ∷ []
            else [])
          ++ severe_reasons severe;
    })
