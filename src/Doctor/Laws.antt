-- ===== src/Doctor/Laws.antt =====
-- internal/doctor/doctor.go: the order of the issues and the verdict.
use hsm_doctor.Base.{
  ℕ, ◌+◌, String, ◌≡◌, refl, sym, inl, inr, Bool, true, false, Option, none, some, List, [], ◌∷◌,
  ◌++◌, map, length, any, any_iff, length-append, total, suc, ap, ◌||◌, ◌∙◌, arith, ltb,
  Option-cases, if◌then◌else◌,
}
use hsm_doctor.Base.Int.{pos, ltb_ℤ}
use hsm_doctor.Base.Sort.{sort_by, by_rank-IsOrder, sort_by-Any_iff, sort_by-total}
use hsm_doctor.Base.Sort.Insertion.{sink_all-sort_by}
use hsm_doctor.Policy.Severity.{critical, rank as severity_rank}
use hsm_doctor.Policy.Evaluate.{Finding, same_severity}
use hsm_doctor.Doctor.{
  healthy, attention, critical_state, Issue, Input, ScanReport, issue_of, posture_issues,
  vendor_issues, exposed, pqc_issues, failures, functional_issues, collect, more_severe,
  sort_issues, verdict_of, build, score_in,
}

-- The issues of a diagnosis are what the checks found, stably sorted with the most severe first.
pub build-issues :
    (version : String) (i : Input) → (build version i).issues ≡ sort_by more_severe (collect i)
unfolding build sort_issues
build-issues version i =
    sink_all-sort_by (by_rank-IsOrder (λ x. severity_rank x.severity)) (collect i)

-- The findings that a report holds: its own and the vendor's.
abbrev pub vendor_findings : ScanReport → List Finding
vendor_findings r = elim r.vendor [ none ↦ [] | some fs ↦ fs ]

abbrev pub findings_in : Option ScanReport → List Finding
findings_in none = []
findings_in (some r) = r.findings ++ vendor_findings r

abbrev pub exposed_in : Option ScanReport → ℕ
exposed_in none = 0
exposed_in (some r) = exposed r

abbrev critical_finding : Finding → Bool
critical_finding f = same_severity f.severity critical

abbrev critical_issue : Issue → Bool
critical_issue x = same_severity x.severity critical

any-append :
    {A : Type 0} (p : A → Bool) (xs ys : List A) → any p (xs ++ ys) ≡ (any p xs || any p ys)
any-append p [] ys = refl
any-append p (x ∷ xs) ys = ground (arith, any-append p xs ys)

any-sort_by :
    (xs : List Issue) → any critical_issue (sort_by more_severe xs) ≡ any critical_issue xs
any-sort_by xs = ground (
  arith,
  any_iff critical_issue (sort_by more_severe xs),
  any_iff critical_issue xs,
  sort_by-Any_iff more_severe (λ x. critical_issue x ≡ true) xs,
)

length-total : {A : Type 0} (xs : List A) → length xs ≡ total (λ x. 1) xs
length-total [] = refl
length-total (x ∷ xs) = omega (arith, length-total xs)

length-sort_by : (xs : List Issue) → length (sort_by more_severe xs) ≡ length xs
length-sort_by xs =
    length-total (sort_by more_severe xs)
    ∙ sort_by-total more_severe (λ x. 1) xs
    ∙ sym (length-total xs)

issues-any :
    (source : String) (fs : List Finding)
    → any critical_issue (map (issue_of source) fs) ≡ any critical_finding fs
unfolding issue_of
issues-any source [] = refl
issues-any source (f ∷ fs) = ap (λ b. same_severity f.severity critical || b) (issues-any source fs)

issues-length :
    (source : String) (fs : List Finding) → length (map (issue_of source) fs) ≡ length fs
issues-length source [] = refl
issues-length source (f ∷ fs) = ap (λ n. suc n) (issues-length source fs)

report_issues : Option ScanReport → List Issue
report_issues r = elim r [
  | none ↦ []
  | some x ↦ posture_issues x ++ vendor_issues x ++ pqc_issues x
]

vendor_issues_lem : (r : ScanReport) → vendor_issues r ≡ map (issue_of "vendor") (vendor_findings r)
unfolding vendor_issues
vendor_issues_lem r = elim (Option-cases r.vendor) [ inl p ↦ rw p refl | inr (fs, p) ↦ rw p refl ]

pqc_issues-any : (r : ScanReport) → any critical_issue (pqc_issues r) ≡ false
unfolding pqc_issues
pqc_issues-any r = ground arith

pqc_issues-length : (r : ScanReport) → length (pqc_issues r) ≡ (if ltb 0 (exposed r) then 1 else 0)
unfolding pqc_issues
pqc_issues-length r = ground arith

report_issues-any :
    (r : Option ScanReport)
    → any critical_issue (report_issues r) ≡ any critical_finding (findings_in r)
unfolding report_issues posture_issues
report_issues-any none = refl
report_issues-any (some r) = rw (vendor_issues_lem r) (
    ground (
      arith,
      any-append critical_issue
          (map (issue_of "posture") r.findings ++ map (issue_of "vendor") (vendor_findings r))
          (pqc_issues r),
      any-append critical_issue (map (issue_of "posture") r.findings)
          (map (issue_of "vendor") (vendor_findings r)),
      issues-any "posture" r.findings,
      issues-any "vendor" (vendor_findings r),
      any-append critical_finding r.findings (vendor_findings r),
      pqc_issues-any r,
    ))

report_issues-length :
    (r : Option ScanReport)
    → length (report_issues r) ≡ length (findings_in r) + (if ltb 0 (exposed_in r) then 1 else 0)
unfolding report_issues posture_issues
report_issues-length none = refl
report_issues-length (some r) = rw (vendor_issues_lem r) (
    ground (
      arith,
      length-append
          (map (issue_of "posture") r.findings ++ map (issue_of "vendor") (vendor_findings r))
          (pqc_issues r),
      length-append (map (issue_of "posture") r.findings)
          (map (issue_of "vendor") (vendor_findings r)),
      issues-length "posture" r.findings,
      issues-length "vendor" (vendor_findings r),
      length-append r.findings (vendor_findings r),
      pqc_issues-length r,
    ))

-- The verdict is critical when a finding of the report or of the vendor is critical or a test step
-- failed. Otherwise it asks for attention when there is any finding, an exposed key or a score
-- below 90, and says healthy when there is none of them.
pub build-verdict :
    (version : String) (i : Input)
    → (build version i).verdict ≡ (
        if any critical_finding (findings_in i.report) || ltb 0 (failures i)
        then critical_state
        else if ltb 0 (length (findings_in i.report))
            || ltb 0 (exposed_in i.report)
            || ltb_ℤ (score_in i.report) (pos 90)
        then attention
        else healthy)
unfolding build verdict_of collect report_issues functional_issues
build-verdict version i =
    let reported = report_issues i.report in
    let issues = reported ++ functional_issues i in
    rw (build-issues version i) (
      ground (
        arith,
        any-sort_by issues,
        length-sort_by issues,
        any-append critical_issue reported (functional_issues i),
        length-append reported (functional_issues i),
        report_issues-any i.report,
        report_issues-length i.report,
      ))
