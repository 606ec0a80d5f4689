-- ===== src/Policy/Match/Negative.antt =====
-- internal/policy/eval.go: a limit below zero passes the check for empty conditions, and is then
-- treated as unset.
use hsm_doctor.Base.{ℕ, String, ◌≢◌, ◌∷◌, ◌≡◌, refl, true, false, none, [], arith}
use hsm_doctor.Base.Int.{pos, negsuc}
use hsm_doctor.Base.Clock.{Format}
use hsm_doctor.Inventory.{Object}
use hsm_doctor.Policy.Condition.{Condition, Rule, Config, empty}
use hsm_doctor.Policy.Severity.{unknown}
use hsm_doctor.Policy.Load.{ok, validate}
use hsm_doctor.Policy.Load.Validating.{IsWellFormed, validate_iff}
use hsm_doctor.Policy.Facts.{Facts}
use hsm_doctor.Policy.Match.{match_object}
use hsm_doctor.Policy.Match.Requirements.{Meets, match_object_iff}

-- A condition with no field set.
abbrev pub no_condition : Condition
no_condition = record {
  class = "";
  key_type = "";
  key_type_in = [];
  extractable = none;
  sensitive = none;
  always_sensitive = none;
  never_extractable = none;
  modifiable = none;
  sign = none;
  verify = none;
  encrypt = none;
  decrypt = none;
  derive = none;
  wrap = none;
  unwrap = none;
  key_size_lt = 0;
  curve_in = [];
  curve_not_in = [];
  cert_expired = none;
  cert_expires_within_days = pos 0;
  cert_validity_days_gt = pos 0;
  cert_validity_days_lt = pos 0;
  cert_lifetime_remaining_pct_lt = pos 0;
  cert_sig_alg_in = [];
  cert_is_ca = none;
  cert_self_signed = none;
  cert_not_yet_valid = none;
  cert_key_size_lt = 0;
  cert_pubkey_alg_in = [];
  cert_ca_without_keycertsign = none;
  cert_key_mismatch = none;
  cert_chain_broken = none;
  duplicate_label = none;
  orphan = none;
  mechanism_any_of = [];
  mechanism_missing = [];
}

-- `cert_expires_within_days: -n` for a positive n, and nothing else.
abbrev pub expires_within_negative : ℕ → Condition
expires_within_negative n = record no_condition { cert_expires_within_days = negsuc n }

-- A rules file with one rule, whose only condition is this.
abbrev pub file_of : Rule → ℕ → Config
file_of r n = record {
  pack = none;
  rules = record r { match_on = expires_within_negative n } ∷ [];
  scoring = none;
}

empty-negative : (n : ℕ) → empty (expires_within_negative n) ≡ false
unfolding empty
empty-negative n = refl

-- A rules file whose one rule has an id, a title, one of the five severities and, as its only
-- condition, a negative `cert_expires_within_days` is accepted by the validation, and the rule then
-- matches every object, keys included.
pub negative_limit_matches_all :
    (fmt : Format) (r : Rule) (n : ℕ) (o : Object) (f : Facts)
    → r.id ≢ ""
    → r.title ≢ ""
    → ((text : String) → r.severity ≢ unknown text)
    → (validate (file_of r n) ≡ ok (file_of r n))
      × ((match_object fmt (record r { match_on = expires_within_negative n }) o f).0 ≡ true)
negative_limit_matches_all fmt r n o f id title known =
    let rule = record r { match_on = expires_within_negative n } in
    let met : Meets fmt (expires_within_negative n) o f = ground arith in
    let formed : IsWellFormed rule = record {
      has_id = id;
      has_title = title;
      is_known = known;
      has_match = empty-negative n;
    } in
    (
      (validate_iff (file_of r n) (file_of r n)).1 (refl, (λ e. cc), (formed, tt), (tt, tt)),
      (match_object_iff fmt rule o f).1 met,
    )
