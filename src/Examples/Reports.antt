-- ===== src/Examples/Reports.antt =====
-- internal/doctor, internal/regression, internal/sharedkeys, internal/snapshot, internal/pqc and internal/certmon:
-- the theorems at small scans.
use hsm_doctor.Base.{
  ◌+◌, ◌-◌, ◌^◌, ◌≤◌, String, ◌≡◌, ◌≢◌, ◌↔◌, true, false, ◌||◌, none, some, List, [], ◌∷◌, any,
  length, ltb, if◌then◌else◌, arith,
}
use hsm_doctor.Base.Int.{ℤ, pos, negsuc, ltb_ℤ, leb_ℤ, ◌-ℤ◌, wrap64, IsInt64}
use hsm_doctor.Inventory.{Mechanism}
use hsm_doctor.Policy.Severity.{critical, high, low}
use hsm_doctor.Policy.Evaluate.{Finding, same_severity}
use hsm_doctor.Doctor.{
  critical_state, attention, healthy, Input, ScanReport, pass, fail, build, failures, score_in,
}
use hsm_doctor.Doctor.Laws.{build-verdict, findings_in, exposed_in}
use hsm_doctor.Regression.{detect}
use hsm_doctor.Regression.Laws.{HasSevere, detect-none_iff}
use hsm_doctor.SharedKeys.{Source}
use hsm_doctor.SharedKeys.{detect as shared_keys}
use hsm_doctor.SharedKeys.Groups.{held_by}
use hsm_doctor.SharedKeys.Laws.{reported, detect-reported}
use hsm_doctor.Snapshot.{compare}
use hsm_doctor.Snapshot.Balance.{compare-balance}
use hsm_doctor.Certs.{Entry, entry_of, note_keys}
use hsm_doctor.Examples.Fixtures.{mechanism, fmt, now, cert, web_cert, inv, later_inv}

abbrev finding : String → Finding
finding id = record {
  rule_id = id;
  title = "title";
  severity = high;
  object = "private-key web";
  detail = "detail";
  remediation = "";
  reference = "";
}

abbrev old_findings : List Finding
old_findings = finding "R1" ∷ record (finding "R2") { severity = low } ∷ []

abbrev new_findings : List Finding
new_findings = finding "R1" ∷ finding "R2" ∷ finding "R2" ∷ []

abbrev scan : ScanReport
scan = record {
  score = pos 70;
  findings = old_findings;
  pqc = none;
  vendor = some (record (finding "V1") { severity = low } ∷ []);
  inventory = some inv;
}

abbrev input : Input
input = record {
  report = some scan;
  tests = some (pass ∷ fail ∷ []);
  tests_ran = true;
  vendor_ran = true;
}

build-verdict_example : (build "1" input).verdict ≡ (
    if any (λ f. same_severity f.severity critical) (findings_in input.report)
      || ltb 0 (failures input)
    then critical_state
    else if ltb 0 (length (findings_in input.report))
        || ltb 0 (exposed_in input.report)
        || ltb_ℤ (score_in input.report) (pos 90)
    then attention
    else healthy)
build-verdict_example = build-verdict "1" input

small_number : IsInt64 (negsuc 41)
small_number = (omega arith, omega arith)

not_the_least : negsuc 41 ≢ negsuc (2 ^ 63 - 1)
not_the_least = λ e. absurd (ground (arith, e))

detect-none_iff_example : (detect (pos 80) (pos 75) old_findings new_findings (pos 0) ≡ none) ↔ (
    (leb_ℤ (if leb_ℤ (pos 0) (pos 0) then pos 10 else pos 0) (wrap64 (pos 80 -ℤ pos 75)) ≡ false)
    × ((id : String) → HasSevere id new_findings → HasSevere id old_findings))
detect-none_iff_example = detect-none_iff (pos 80) (pos 75) old_findings new_findings (pos 0)

abbrev source : ℤ → Source
source id = record {
  hsm_id = id;
  hsm_label = "hsm";
  serial = "1";
  source = "agent";
  inventory = some inv;
}

abbrev sources : List Source
sources = source (pos 1) ∷ source (pos 2) ∷ []

detect-reported_example :
    (reported "fp-key" (shared_keys sources) ≤ 1)
    × ((reported "fp-key" (shared_keys sources) ≡ 1) ↔ (
        (a : ℤ) × (b : ℤ) × (a ≢ b)
        × (held_by "fp-key" sources a ≡ true)
        × (held_by "fp-key" sources b ≡ true)))
detect-reported_example = detect-reported "fp-key" sources

compare-balance_example :
    length (compare fmt inv later_inv).objects_added + length inv.objects
    ≡ length (compare fmt inv later_inv).objects_removed + length later_inv.objects
compare-balance_example = compare-balance fmt inv later_inv

abbrev web_entry : Entry
web_entry = entry_of fmt now (pos 30) (note_keys [] inv.objects) web_cert cert

abbrev kem_token : List Mechanism
kem_token =
    record (mechanism "CKM_ML_KEM_KEY_PAIR_GEN") { code = 15 }
    ∷ record (mechanism "CKM_ML_KEM") { code = 23 }
    ∷ record (mechanism "CKM_VENDOR") { code = 2147483649 }
    ∷ []
