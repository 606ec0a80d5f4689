-- ===== src/Doctor.antt =====
-- internal/doctor/doctor.go: one prioritised diagnosis from the checks. Of the report
-- (internal/report/report.go) only the fields that the diagnosis reads are modelled.
pub mod Itoa
pub mod Laws
use hsm_doctor.Base.{
  ℕ, ◌+◌, String, Bool, true, false, Option, none, some, List, [], ◌∷◌, ◌++◌, ◌&&◌, ◌||◌, ◌==◌, eqb,
  ltb, if◌then◌else◌, map, length, any, not,
}
use hsm_doctor.Base.Int.{ℤ, pos, ltb_ℤ}
use hsm_doctor.Base.Sort.{by_rank}
use hsm_doctor.Base.Sort.Insertion.{sink_all}
use hsm_doctor.Base.Text.{◌+++◌}
use hsm_doctor.Inventory.{Inventory}
use hsm_doctor.Policy.Severity.{Severity, critical, info, rank as severity_rank}
use hsm_doctor.Policy.Evaluate.{Finding, same_severity}
use hsm_doctor.Doctor.Itoa.{plural}

pub data Verdict : Type 0 where
  healthy attention critical_state : Verdict

unfoldable pub rank : Verdict → ℕ
rank healthy = 0
rank attention = 1
rank critical_state = 2

pub record Issue : Type 0 where
  pub severity : Severity
  pub source : String
  pub title : String
  pub detail : String
  pub action : String

pub record RanCheck : Type 0 where
  pub name : String
  pub ran : Bool

pub record Token : Type 0 where
  pub label : String
  pub serial_number : String
  pub model : String
  pub manufacturer : String

pub record Diagnosis : Type 0 where
  pub tool : String
  pub version : String
  pub token : Token
  pub verdict : Verdict
  pub score : ℤ
  pub summary : String
  pub issues : List Issue
  pub checks : List RanCheck

-- The number of keys exposed to harvesting, where the summary has an exposure.
pub record PqcSummary : Type 0 where
  pub exposure : Option ℕ

pub record ScanReport : Type 0 where
  pub score : ℤ
  pub findings : List Finding
  pub pqc : Option PqcSummary
  pub vendor : Option (List Finding)
  pub inventory : Option Inventory

-- A status that is none of the three is counted nowhere.
pub data StepStatus : Type 0 where
  pass fail skip other : StepStatus

pub record StepCounts : Type 0 where
  pub passed : ℕ
  pub failed : ℕ
  pub skipped : ℕ

abbrev count_step : StepCounts → StepStatus → StepCounts
count_step c pass = record c { passed = c.passed + 1 }
count_step c fail = record c { failed = c.failed + 1 }
count_step c skip = record c { skipped = c.skipped + 1 }
count_step c other = c

count_from : StepCounts → List StepStatus → StepCounts
count_from c [] = c
count_from c (s ∷ rest) = count_from (count_step c s) rest

-- `Result.Counts` of internal/funtest/funtest.go
unfoldable pub step_counts : List StepStatus → StepCounts
unfolding count_from
step_counts steps = count_from (record { passed = 0; failed = 0; skipped = 0 }) steps

pub record Input : Type 0 where
  pub report : Option ScanReport
  pub tests : Option (List StepStatus)
  pub tests_ran : Bool
  pub vendor_ran : Bool

unfoldable pub finding_detail : Finding → String
finding_detail f =
    if not (f.object == "") && not (f.detail == "")
    then f.object +++ " — " +++ f.detail
    else if not (f.object == "")
    then f.object
    else f.detail

unfoldable pub issue_of : String → Finding → Issue
issue_of source f = record {
  severity = f.severity;
  source = source;
  title = f.title;
  detail = finding_detail f;
  action = f.remediation;
}

abbrev pub no_token : Token
no_token = record { label = ""; serial_number = ""; model = ""; manufacturer = "" }

unfoldable pub token_of : ScanReport → Token
token_of r = elim r.inventory [
  | none ↦ no_token
  | some inv ↦ elim inv.slot.token [
    | none ↦ no_token
    | some t ↦ record {
      label = t.label;
      serial_number = t.serial_number;
      model = t.model;
      manufacturer = t.manufacturer;
    }
  ]
]

unfoldable pub posture_issues : ScanReport → List Issue
posture_issues r = map (issue_of "posture") r.findings

unfoldable pub vendor_issues : ScanReport → List Issue
vendor_issues r = elim r.vendor [ none ↦ [] | some fs ↦ map (issue_of "vendor") fs ]

-- How many keys are exposed; 0 where the report does not say.
unfoldable pub exposed : ScanReport → ℕ
exposed r = elim r.pqc [ none ↦ 0 | some p ↦ elim p.exposure [ none ↦ 0 | some n ↦ n ] ]

unfoldable pub pqc_issues : ScanReport → List Issue
pqc_issues r =
    let n = exposed r in
    if ltb 0 n
    then record {
      severity = info;
      source = "pqc";
      title =
          plural n "quantum-vulnerable key can decrypt/unwrap"
            "quantum-vulnerable keys can decrypt/unwrap";
      detail =
          "harvest-now-decrypt-later exposure: traffic recorded today is decryptable once a quantum computer exists";
      action = "Plan migration to ML-KEM and rotate these keys.";
    }
      ∷ []
    else []

-- How many test steps failed; 0 where no test ran.
unfoldable pub failures : Input → ℕ
failures i =
    if i.tests_ran then elim i.tests [ none ↦ 0 | some steps ↦ (step_counts steps).failed ] else 0

unfoldable pub functional_issues : Input → List Issue
functional_issues i =
    let n = failures i in
    if ltb 0 n
    then record {
      severity = critical;
      source = "functional";
      title = plural n "functional test step failed" "functional test steps failed";
      detail = "a supported cryptographic operation did not succeed";
      action = "Investigate the failing mechanism; the token may be misconfigured or degraded.";
    }
      ∷ []
    else []

unfoldable pub collect : Input → List Issue
collect i =
    (elim i.report [ none ↦ [] | some r ↦ posture_issues r ++ vendor_issues r ++ pqc_issues r ])
    ++ functional_issues i

abbrev pub more_severe : Issue → Issue → Bool
more_severe = by_rank (λ i. severity_rank i.severity)

unfoldable pub sort_issues : List Issue → List Issue
sort_issues issues = sink_all more_severe [] issues

unfoldable pub verdict_of : List Issue → ℤ → Verdict
verdict_of issues score =
    if any (λ i. same_severity i.severity critical) issues
    then critical_state
    else if ltb 0 (length issues) || ltb_ℤ score (pos 90)
    then attention
    else healthy

unfoldable pub summarize : Verdict → List Issue → String
summarize critical_state issues = "critical issues need immediate attention"
summarize attention issues =
    if eqb (length issues) 0
    then "posture is below the healthy threshold; review the score"
    else plural (length issues) "issue to review" "issues to review"
summarize healthy issues = "no issues found; the token's posture is healthy"

abbrev pub is_some {ℓ} : {A : Type ℓ} → Option A → Bool
is_some none = false
is_some (some a) = true

abbrev pub has_pqc : Option ScanReport → Bool
has_pqc none = false
has_pqc (some r) = is_some r.pqc

unfoldable pub checks_of : Input → List RanCheck
checks_of i =
    record { name = "inventory"; ran = is_some i.report }
    ∷ record { name = "posture"; ran = is_some i.report }
    ∷ record { name = "certificates"; ran = is_some i.report }
    ∷ record { name = "pqc"; ran = has_pqc i.report }
    ∷ record { name = "functional"; ran = i.tests_ran }
    ∷ record { name = "vendor"; ran = i.vendor_ran }
    ∷ []

-- A report that is missing leaves the score at 0 and the token empty.
abbrev pub score_in : Option ScanReport → ℤ
score_in none = pos 0
score_in (some r) = r.score

abbrev pub token_in : Option ScanReport → Token
token_in none = no_token
token_in (some r) = token_of r

unfoldable pub build : String → Input → Diagnosis
build version i =
    let issues = sort_issues (collect i) in
    let verdict = verdict_of issues (score_in i.report) in
    record {
      tool = "hsmdoctor";
      version = version;
      token = token_in i.report;
      verdict = verdict;
      score = score_in i.report;
      summary = summarize verdict issues;
      issues = issues;
      checks = checks_of i;
    }
