-- ===== src/Examples/Tools.antt =====
-- internal/preflight, internal/kmip, internal/advisory, internal/p11, internal/trace/coverage.go and
-- internal/agent: the theorems at small inputs.
use hsm_doctor.Base.{
  ◌+◌, ◌<◌, ◌≡◌, refl, ◌↔◌, true, none, some, [], ◌∷◌, ◌==◌, if◌then◌else◌, Any, Elem, length,
}
use hsm_doctor.Base.Int.{pos}
use hsm_doctor.Base.Sort.{IsSorted}
use hsm_doctor.Base.Casing.{Casing}
use hsm_doctor.Base.Fallible.{done}
use hsm_doctor.Policy.Severity.{high, default_scoring}
use hsm_doctor.Policy.Evaluate.{Finding, Result, more_severe}
use hsm_doctor.Preflight.{Result as Verdict, Client, Options, find_token, run}
use hsm_doctor.Preflight.Ready.{is_ready, run-ready}
use hsm_doctor.Kmip
use hsm_doctor.Kmip.Evaluate.{match_rule, evaluate}
use hsm_doctor.Kmip.Evaluate.Requirements.{Meets, match_rule_iff}
use hsm_doctor.Kmip.Evaluate.Findings.{FiresAt, evaluate-findings}
use hsm_doctor.Advisory.{Advisory}
use hsm_doctor.Advisory.{evaluate as advise}
use hsm_doctor.Advisory.Matching.{Reports, evaluate_iff}
use hsm_doctor.P11.Uri.{Uri}
use hsm_doctor.Trace.Coverage.{FuncCoverage, recordable_functions, coverage_of}
use hsm_doctor.Trace.Coverage.Partition.{calls_of, coverage_of-exercise_iff}
use hsm_doctor.Agent.{with_vendor}
use hsm_doctor.Agent.Vendor.{with_vendor-short}
use hsm_doctor.Examples.Fixtures.{fmt, inv, token, mechanism, trace}

abbrev client : Client
client = record {
  slots = done (inv.slot ∷ []);
  open_session = λ slot pin. done tt;
  mechanisms = λ slot. done (mechanism "CKM_RSA_PKCS" ∷ []);
  mechanism_name = λ code. "CKM";
  smoke_test = λ slot pin. done [];
}

abbrev options : Options
options = record {
  required_mechanisms = 0 ∷ [];
  probe = true;
  min_free_sessions = pos 2;
  vendor = none;
}

run-ready_example :
    (r : Verdict) × (run fmt client 0 "1234" options ≡ done r)
    × (r.ready ≡ is_ready client 0 "1234" options (find_token 0 (inv.slot ∷ [])))
    × (r.verdict ≡ (
        if is_ready client 0 "1234" options (find_token 0 (inv.slot ∷ []))
        then "ready"
        else "postpone"))
run-ready_example = run-ready fmt client 0 "1234" options (inv.slot ∷ []) refl

abbrev casing : Casing
casing = record { upper = λ s. s; lower = λ s. s; equal_fold = λ s t. s == t }

abbrev kmip_key : Kmip.Object
kmip_key = record {
  id = "k1";
  type = "SymmetricKey";
  algorithm = "DES";
  length = pos 56;
  state = "Active";
  usage_mask = "Encrypt" ∷ "Decrypt" ∷ [];
  names = [];
  initial_date = none;
}

abbrev weak_match : Kmip.Match
weak_match = record {
  object_type_in = "SymmetricKey" ∷ [];
  algorithm_in = [];
  length_lt = pos 128;
  state_in = "Active" ∷ [];
  usage_all_of = "Encrypt" ∷ [];
  usage_any_of = [];
  unnamed = some true;
  weak_key = none;
}

abbrev weak_rule : Kmip.Rule
weak_rule = record {
  id = "KMIP-1";
  title = "Weak key";
  severity = high;
  description = "";
  remediation = "";
  reference = "";
  match_on = weak_match;
}

abbrev kmip_inv : Kmip.Inventory
kmip_inv = record {
  endpoint = "kmip:5696";
  protocol_version = "1.4";
  scanned_at = pos 1;
  objects = kmip_key ∷ [];
}

abbrev kmip_rules : Kmip.RuleSet
kmip_rules = record { pack = none; rules = weak_rule ∷ [] }

match_rule_iff_example :
    ((match_rule casing kmip_key weak_match).0 ≡ true) ↔ Meets casing kmip_key weak_match
match_rule_iff_example = match_rule_iff casing kmip_key weak_match

abbrev weak_finding : Finding
weak_finding = record {
  rule_id = "KMIP-1";
  title = "Weak key";
  severity = high;
  object = "k1";
  detail = "";
  remediation = "";
  reference = "";
}

evaluate-findings_example :
    IsSorted more_severe (evaluate casing kmip_inv kmip_rules).findings
    × (Elem weak_finding (evaluate casing kmip_inv kmip_rules).findings
        ↔ Any (λ o. Any (FiresAt casing weak_finding o) kmip_rules.rules) kmip_inv.objects)
evaluate-findings_example = evaluate-findings casing kmip_inv kmip_rules weak_finding

abbrev firmware_advisory : Advisory
firmware_advisory = record {
  id = "ADV-1";
  title = "Old firmware";
  severity = high;
  description = "";
  remediation = "";
  reference = "";
  match_on = record {
    component = "firmware";
    manufacturer = "acme";
    model = "";
    introduced_in = "1.5";
    fixed_in = "2.1";
  };
}

evaluate_iff_example :
    Elem weak_finding (advise casing inv.module_info (some token) (firmware_advisory ∷ []))
    ↔ Any (Reports casing inv.module_info (some token) weak_finding) (firmware_advisory ∷ [])
evaluate_iff_example =
    evaluate_iff casing inv.module_info (some token) weak_finding (firmware_advisory ∷ [])

abbrev prod_uri : Uri
prod_uri = record {
  token = "prod";
  serial = "";
  manufacturer = "acme";
  model = "";
  slot_id = none;
  module_path = "";
  pin_value = "";
  pin_source = "";
}

coverage_of-exercise_iff_example :
    Any
      (λ (f : FuncCoverage). (f.function ≡ "C_Login") × (f.calls ≡ 1))
      (coverage_of trace).exercise
    ↔ (Elem "C_Login" recordable_functions × (calls_of "C_Login" trace ≡ 1) × (0 < 1))
coverage_of-exercise_iff_example = coverage_of-exercise_iff trace "C_Login" 1

abbrev posture : Result
posture = record { findings = weak_finding ∷ []; score = pos 90; scoring = default_scoring }

with_vendor-short_example :
    let (rep, res') = with_vendor 4 (some (weak_finding ∷ [])) inv posture in
    (rep.score ≡ res'.score)
    × (length rep.findings + length (weak_finding ∷ []) ≡ length res'.findings)
with_vendor-short_example = with_vendor-short 4 (weak_finding ∷ []) inv posture
