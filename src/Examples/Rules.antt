-- ===== src/Examples/Rules.antt =====
-- internal/policy: the theorems at a token whose key is extractable, and runs of the evaluation.
use hsm_doctor.Base.{
  String, Option, if◌then◌else◌, ◌==◌, ◌-◌, ◌^◌, ◌≤◌, ◌≡◌, refl, ◌≢◌, ◌↔◌, ◌⊎◌, true, false, List,
  [], ◌∷◌, ◌++◌, ◌==◌, All, Any, Elem, total, arith,
}
use hsm_doctor.Base.Int.{pos}
use hsm_doctor.Inventory.{contains}
use hsm_doctor.Policy.Severity.{info, default_scoring}
use hsm_doctor.Policy.Condition.{Config, scoring_of}
use hsm_doctor.Policy.Facts.{build_facts, is_orphan}
use hsm_doctor.Policy.Facts.Relations.{IsOrphan, is_orphan_iff}
use hsm_doctor.Policy.Match.{match_object}
use hsm_doctor.Policy.Match.Requirements.{Meets, match_object_iff}
use hsm_doctor.Policy.Match.Negative.{expires_within_negative, file_of, negative_limit_matches_all}
use hsm_doctor.Policy.Evaluate.{Finding, add_findings, evaluate, finding_of, mechanism_findings}
use hsm_doctor.Policy.Evaluate.Findings.{Fires, evaluate-Elem_iff, mechanism_findings_iff}
use hsm_doctor.Policy.Evaluate.Score.{IsPenal, cost, evaluate-score_exact}
use hsm_doctor.Policy.Evaluate.Merging.{add_findings-add_findings}
use hsm_doctor.Policy.Load.{ok, validate}
use hsm_doctor.Policy.Load.Ids.{IsDistinct}
use hsm_doctor.Policy.Load.Validating.{IsWellFormed, validate_iff}
use hsm_doctor.Policy.Load.Packs.{all_rules}
use hsm_doctor.Policy.Packs.{resolved, resolve_rule_config}
use hsm_doctor.Policy.Packs.Naming.{GoBy, joined_packs}
use hsm_doctor.Policy.Packs.Choosing.{Loads, resolve_packs_iff}
use hsm_doctor.Base.Fallible.{Fallible, done}
use hsm_doctor.Base.Dict.{lookup, string_eq}
use hsm_doctor.Base.Sort.{sort_by, insert_by}
use hsm_doctor.Base.Int.{◌-ℤ◌, wrap64, to_uint}
use hsm_doctor.Base.Text.{join}
use hsm_doctor.Policy.Severity.{penalty, rank, severity_order}
use hsm_doctor.Policy.Condition.{token_scoped}
use hsm_doctor.Policy.Evaluate.{
  sort_findings, score_of, subtract, all_findings, rule_findings, advertises, object_findings,
  object_finding, object_ref,
}
use hsm_doctor.Policy.Guard.{
  run_checks, check_text, check_in, check_not_in, check_attr, check_key_size, check_cert_fact,
  check_cert_limit, check_cert_in, check_fact, with_cert, check_cert_key_size,
}
use hsm_doctor.Policy.Match.{
  object_checks, key_checks, attr_checks, validity_checks, cert_checks, relation_checks,
}
use hsm_doctor.Examples.Fixtures.{fmt, now, key, inv, weak_key, old_mechanism, cfg}

match_object_iff_example :
    ((match_object fmt weak_key key (build_facts inv now)).0 ≡ true)
    ↔ Meets fmt weak_key.match_on key (build_facts inv now)
match_object_iff_example = match_object_iff fmt weak_key key (build_facts inv now)

abbrev des : Finding
des = finding_of old_mechanism "" "token advertises: CKM_DES_CBC"

evaluate-Elem_iff_example :
    Elem des (evaluate fmt inv cfg now).findings
    ↔ Any (Fires fmt inv (build_facts inv now) des) cfg.rules
evaluate-Elem_iff_example = evaluate-Elem_iff fmt inv cfg now des

default_scoring-IsPenal : IsPenal default_scoring
default_scoring-IsPenal = record { critical = refl; high = refl; medium = refl; low = refl }

cfg-IsPenal : IsPenal (scoring_of cfg)
unfolding scoring_of
cfg-IsPenal = default_scoring-IsPenal

evaluated_score : (evaluate fmt inv cfg now).score ≡ pos 65
unfolding evaluate sort_findings sort_by insert_by score_of subtract ◌-ℤ◌ wrap64 to_uint penalty
    scoring_of all_findings rule_findings token_scoped mechanism_findings advertises finding_of
    object_findings object_finding match_object object_checks run_checks key_checks attr_checks
    validity_checks cert_checks relation_checks check_text check_in check_not_in check_attr
    check_key_size check_cert_fact check_cert_limit check_cert_in check_fact with_cert
    check_cert_key_size contains rank severity_order build_facts object_ref join
evaluated_score = refl

cost_is_small : total (cost (scoring_of cfg)) (evaluate fmt inv cfg now).findings ≤ 2 ^ 63
unfolding evaluate sort_findings sort_by insert_by score_of subtract ◌-ℤ◌ wrap64 to_uint penalty
    scoring_of all_findings rule_findings token_scoped mechanism_findings advertises finding_of
    object_findings object_finding match_object object_checks run_checks key_checks attr_checks
    validity_checks cert_checks relation_checks check_text check_in check_not_in check_attr
    check_key_size check_cert_fact check_cert_limit check_cert_in check_fact with_cert
    check_cert_key_size contains rank severity_order build_facts object_ref join
cost_is_small = ground arith

evaluate-score_exact_example :
    (evaluate fmt inv cfg now).score
    ≡ pos (100 - total (cost (scoring_of cfg)) (evaluate fmt inv cfg now).findings)
evaluate-score_exact_example = evaluate-score_exact fmt inv cfg now cfg-IsPenal cost_is_small

validate_iff_example :
    (validate cfg ≡ ok cfg)
    ↔ ((cfg ≡ cfg) × (cfg.rules ≢ []) × All IsWellFormed cfg.rules × IsDistinct cfg.rules)
validate_iff_example = validate_iff cfg cfg

abbrev other_cfg : Config
other_cfg = record cfg { rules = record weak_key { id = "R3" } ∷ [] }

abbrev decode_pack : String → Fallible Config
decode_pack text = if text == "base rules" then done cfg else done other_cfg

abbrev pack_folder : String → Option String
pack_folder file = lookup file (("base.yaml", "base rules") ∷ [])

abbrev other_files : String → Option String
other_files file = lookup file (("extra", "more rules") ∷ [])

-- One pack is embedded, the other is a file.
resolve_packs_iff_example :
    (resolve_rule_config other_files pack_folder decode_pack "" "" ("base" ∷ "extra" ∷ [])
      ≡ resolved (joined_packs (cfg ∷ other_cfg ∷ []), "base" ∷ "extra" ∷ []))
    ↔ ((cs : List Config) × Loads other_files pack_folder decode_pack "" ("base" ∷ "extra" ∷ []) cs
        × (all_rules cs ≢ [])
        × IsDistinct (all_rules cs)
        × (joined_packs (cfg ∷ other_cfg ∷ []) ≡ joined_packs cs)
        × GoBy ("base" ∷ "extra" ∷ []) cs ("base" ∷ "extra" ∷ []))
resolve_packs_iff_example =
    resolve_packs_iff other_files pack_folder decode_pack "" "base" ("extra" ∷ [])
      (joined_packs (cfg ∷ other_cfg ∷ [])) ("base" ∷ "extra" ∷ [])

mechanism_findings_iff_example : (mechanism_findings inv old_mechanism ≢ []) ↔ (
    (old_mechanism.match_on.mechanism_any_of ≢ [])
      × Any
          (λ name. Any (λ m. (m.name == name) ≡ true) inv.mechanisms)
          old_mechanism.match_on.mechanism_any_of
    ⊎ (old_mechanism.match_on.mechanism_any_of ≡ [])
      × All
          (λ name. All (λ m. (m.name == name) ≡ false) inv.mechanisms)
          old_mechanism.match_on.mechanism_missing)
mechanism_findings_iff_example = mechanism_findings_iff inv old_mechanism

abbrev note : Finding
note = finding_of (record weak_key { severity = info }) "" ""

add_findings-add_findings_example :
    add_findings (add_findings (evaluate fmt inv cfg now) (des ∷ [])) (note ∷ [])
    ≡ add_findings (evaluate fmt inv cfg now) ((des ∷ []) ++ (note ∷ []))
add_findings-add_findings_example =
    add_findings-add_findings (evaluate fmt inv cfg now) (des ∷ []) (note ∷ [])

result-IsPenal : IsPenal (evaluate fmt inv cfg now).scoring
unfolding evaluate
result-IsPenal = cfg-IsPenal

result_cost_is_small :
    total (cost (evaluate fmt inv cfg now).scoring) (evaluate fmt inv cfg now).findings ≤ 2 ^ 63
unfolding evaluate
result_cost_is_small = cost_is_small

note_is_info : note.severity ≡ info
unfolding finding_of
note_is_info = refl

is_orphan_iff_example : (is_orphan (build_facts inv now) key ≡ true) ↔ IsOrphan inv now key
is_orphan_iff_example = is_orphan_iff inv now key

negative_limit_matches_all_example :
    (validate (file_of weak_key 29) ≡ ok (file_of weak_key 29))
    × ((match_object fmt
          (record weak_key { match_on = expires_within_negative 29 })
          key
          (build_facts inv now)).0
        ≡ true)
negative_limit_matches_all_example =
    negative_limit_matches_all fmt weak_key 29 key (build_facts inv now) (λ e. cc) (λ e. cc)
      (λ text e. cc)
