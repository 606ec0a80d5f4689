-- ===== src/Kmip/Evaluate.antt =====
-- internal/kmip/eval.go: `Evaluate` and `matchRule`. A guard of `matchRule` that stops is `none`,
-- one that goes on is the details that it appends.
pub mod Requirements
pub mod Findings
use hsm_doctor.Base.{
  String, Bool, true, false, not, none, some, List, [], ◌∷◌, ◌++◌, ◌||◌, if◌then◌else◌, any,
}
use hsm_doctor.Base.Int.{ℤ, pos, ◌-ℤ◌, wrap64, ltb_ℤ, leb_ℤ, eq_ℤ}
use hsm_doctor.Base.Text.{◌+++◌, join}
use hsm_doctor.Base.Casing.{Casing}
use hsm_doctor.Policy.Condition.{is_empty}
use hsm_doctor.Policy.Guard.{Check, skip, say, check_fact, run_checks}
use hsm_doctor.Policy.Evaluate.{Finding, sort_findings}
use hsm_doctor.Doctor.Itoa.{itoa}
use hsm_doctor.Kmip.{
  Object, Inventory, Match, Rule, RuleSet, Report, severity_penalty, object_ref, has_usage,
  weak_key,
}

unfoldable pub contains_fold : Casing → List String → String → Bool
contains_fold c [] want = false
contains_fold c (v ∷ rest) want = if c.equal_fold v want then true else contains_fold c rest want

-- A list of accepted texts that is set.
unfoldable pub check_fold : Casing → List String → String → String → Check
check_fold c list have prefix =
    if is_empty list
    then skip
    else if not (contains_fold c list have)
    then none
    else say (prefix +++ have)

-- `itoa` of this package is that of internal/doctor; a panic would leave no text.
abbrev pub itoa_text : ℤ → String
itoa_text n = elim (itoa n) [ none ↦ "" | some s ↦ s ]

unfoldable pub check_length : ℤ → ℤ → Check
check_length limit have =
    if ltb_ℤ (pos 0) limit
    then if eq_ℤ have (pos 0) || leb_ℤ limit have
      then none
      else say ("length " +++ itoa_text have +++ " < " +++ itoa_text limit)
    else skip

-- The loop that stops at the first usage that is not granted.
unfoldable pub grants_all : List String → List String → Bool
grants_all granted [] = true
grants_all granted (u ∷ rest) = if not (has_usage granted u) then false else grants_all granted rest

-- The loop that stops at the first usage that is granted.
unfoldable pub grants_any : List String → List String → Bool
grants_any granted [] = false
grants_any granted (u ∷ rest) = if has_usage granted u then true else grants_any granted rest

unfoldable pub check_all_of : List String → List String → Check
check_all_of wanted granted =
    if is_empty wanted
    then skip
    else if not (grants_all granted wanted)
    then none
    else say ("usage " +++ join "+" wanted)

unfoldable pub check_any_of : List String → List String → Check
check_any_of wanted granted =
    if is_empty wanted
    then skip
    else if not (grants_any granted wanted)
    then none
    else say ("usage any of " +++ join "/" wanted)

abbrev pub say_if : Bool → String → Check
say_if b s = if b then say s else skip

unfoldable pub rule_checks : Casing → Object → Match → List Check
rule_checks c o m =
    let (weak, detail) = weak_key c o in
    check_fold c m.object_type_in o.type "type "
    ∷ check_fold c m.algorithm_in o.algorithm "algorithm "
    ∷ check_length m.length_lt o.length
    ∷ check_fold c m.state_in o.state "state "
    ∷ check_all_of m.usage_all_of o.usage_mask
    ∷ check_any_of m.usage_any_of o.usage_mask
    ∷ check_fact m.unnamed (is_empty o.names) (say_if (is_empty o.names) "no Name attribute")
    ∷ check_fact m.weak_key weak (say_if weak detail)
    ∷ []

unfoldable pub match_rule : Casing → Object → Match → Bool × String
match_rule c o m = elim (run_checks (rule_checks c o m)) [
  | none ↦ (false, "")
  | some details ↦ (true, join "; " details)
]

unfoldable pub finding_of : Rule → Object → String → Finding
finding_of r o detail = record {
  rule_id = r.id;
  title = r.title;
  severity = r.severity;
  object = object_ref o;
  detail = detail;
  remediation = r.remediation;
  reference = r.reference;
}

unfoldable pub rule_finding : Casing → Object → Rule → List Finding
rule_finding c o r =
    let (matched, detail) = match_rule c o r.match_on in
    if matched then finding_of r o detail ∷ [] else []

-- The inner loop, over the rules.
unfoldable pub object_findings : Casing → List Rule → Object → List Finding
object_findings c [] o = []
object_findings c (r ∷ rest) o = rule_finding c o r ++ object_findings c rest o

unfoldable pub all_findings : Casing → List Rule → List Object → List Finding
all_findings c rules [] = []
all_findings c rules (o ∷ rest) = object_findings c rules o ++ all_findings c rules rest

unfoldable pub subtract : ℤ → List Finding → ℤ
subtract score [] = score
subtract score (f ∷ fs) = subtract (wrap64 (score -ℤ severity_penalty f.severity)) fs

unfoldable pub score_of : List Finding → ℤ
score_of fs = let n = subtract (pos 100) fs in if ltb_ℤ n (pos 0) then pos 0 else n

unfoldable pub evaluate : Casing → Inventory → RuleSet → Report
evaluate c inv cfg =
    let found = sort_findings (all_findings c cfg.rules inv.objects) in
    record { inventory = inv; score = score_of found; findings = found }
