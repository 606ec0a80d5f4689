-- ===== src/Policy/Match.antt =====
-- internal/policy/eval.go: `matchObject`, a row of guards.
pub mod Requirements
pub mod Negative
use text.Mathlib.Text.{starts_with}
use hsm_doctor.Base.{
  String, Bool, true, false, not, none, some, List, [], ◌∷◌, ◌++◌, ◌==◌, if◌then◌else◌,
}
use hsm_doctor.Base.Text.{◌+++◌, join}
use hsm_doctor.Base.Clock.{Format, before}
use hsm_doctor.Inventory.{Object}
use hsm_doctor.Policy.Condition.{Condition, Rule}
use hsm_doctor.Policy.Facts.{Facts, cert_key_mismatch, is_duplicate_label, is_orphan}
use hsm_doctor.Policy.Guard.{
  Check, say, check_text, check_in, check_not_in, check_attr, check_key_size, check_cert_fact,
  check_cert_limit, check_cert_in, check_fact, if_wanted, expires_within, remaining_pct,
  validity_gt, validity_lt, check_cert_key_size, chain_broken, ca_without_keycertsign, run_checks,
}

module _ (fmt : Format) (c : Condition) (o : Object) (f : Facts) where
  unfoldable pub key_checks : List Check
  key_checks =
      check_text c.class o.class
      ∷ check_text c.key_type o.key_type
      ∷ check_in c.key_type_in o.key_type "key type "
      ∷ check_in c.curve_in o.curve "curve "
      ∷ check_not_in c.curve_not_in o.curve
      ∷ []

  unfoldable pub attr_checks : List Check
  attr_checks =
      check_attr c.extractable o.extractable "CKA_EXTRACTABLE"
      ∷ check_attr c.sensitive o.sensitive "CKA_SENSITIVE"
      ∷ check_attr c.always_sensitive o.always_sensitive "CKA_ALWAYS_SENSITIVE"
      ∷ check_attr c.never_extractable o.never_extractable "CKA_NEVER_EXTRACTABLE"
      ∷ check_attr c.modifiable o.modifiable "CKA_MODIFIABLE"
      ∷ check_attr c.sign o.sign "CKA_SIGN"
      ∷ check_attr c.verify o.verify "CKA_VERIFY"
      ∷ check_attr c.encrypt o.encrypt "CKA_ENCRYPT"
      ∷ check_attr c.decrypt o.decrypt "CKA_DECRYPT"
      ∷ check_attr c.derive o.derive "CKA_DERIVE"
      ∷ check_attr c.wrap o.wrap "CKA_WRAP"
      ∷ check_attr c.unwrap o.unwrap "CKA_UNWRAP"
      ∷ check_key_size c.key_size_lt o.key_bits
      ∷ []

  unfoldable pub validity_checks : List Check
  validity_checks =
      check_cert_fact c.cert_expired o.certificate (λ x. before x.not_after f.now)
        (λ x. say ("expired " +++ fmt.date x.not_after))
      ∷ check_cert_limit c.cert_expires_within_days o.certificate
          (expires_within fmt f.now c.cert_expires_within_days)
      ∷ check_cert_limit c.cert_validity_days_gt o.certificate
          (validity_gt fmt c.cert_validity_days_gt)
      ∷ check_cert_limit c.cert_validity_days_lt o.certificate
          (validity_lt fmt c.cert_validity_days_lt)
      ∷ check_cert_limit c.cert_lifetime_remaining_pct_lt o.certificate
          (remaining_pct fmt f.now c.cert_lifetime_remaining_pct_lt)
      ∷ []

  unfoldable pub cert_checks : List Check
  cert_checks =
      check_cert_in c.cert_sig_alg_in o.certificate (λ x. x.signature_algorithm)
        "signature algorithm "
      ∷ check_cert_fact c.cert_is_ca o.certificate (λ x. x.is_ca)
          (λ x. if_wanted c.cert_is_ca "CA certificate")
      ∷ check_cert_fact c.cert_self_signed o.certificate (λ x. x.self_signed)
          (λ x. if_wanted c.cert_self_signed "self-signed (issuer equals subject)")
      ∷ check_cert_fact c.cert_not_yet_valid o.certificate (λ x. before f.now x.not_before)
          (λ x. if_wanted c.cert_not_yet_valid ("not valid until " +++ fmt.date x.not_before))
      ∷ check_cert_key_size c.cert_key_size_lt o.certificate
      ∷ check_cert_in c.cert_pubkey_alg_in o.certificate (λ x. x.public_key_algorithm)
          "certificate key algorithm "
      ∷ check_cert_fact c.cert_ca_without_keycertsign o.certificate ca_without_keycertsign
          (λ x. if_wanted c.cert_ca_without_keycertsign "CA certificate lacks keyCertSign usage")
      ∷ check_fact c.cert_key_mismatch (cert_key_mismatch f o)
          (if_wanted c.cert_key_mismatch "public key does not match the key sharing its CKA_ID")
      ∷ check_cert_fact c.cert_chain_broken o.certificate chain_broken
          (λ x. if_wanted c.cert_chain_broken x.chain_status)
      ∷ []

  unfoldable pub relation_checks : List Check
  relation_checks =
      check_fact c.duplicate_label (is_duplicate_label f o)
        (say ("label " +++ fmt.quote o.label +++ " used by multiple " +++ o.class +++ " objects"))
      ∷ check_fact c.orphan (is_orphan f o) (
          say (
            if o.id == ""
            then "object has no CKA_ID to correlate"
            else "no counterpart object shares CKA_ID " +++ o.id))
      ∷ []

  unfoldable pub object_checks : List Check
  object_checks =
      key_checks ++ (attr_checks ++ (validity_checks ++ (cert_checks ++ relation_checks)))

module _ (fmt : Format) (r : Rule) (o : Object) (f : Facts) where
  -- Whether the rule fires, and why.
  unfoldable pub match_object : Bool × String
  match_object = elim (run_checks (object_checks fmt r.match_on o f)) [
    | none ↦ (false, "")
    | some details ↦ (true, join "; " details)
  ]
