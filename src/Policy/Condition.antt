-- ===== src/Policy/Condition.antt =====
-- internal/policy/policy.go: what a rule matches, and rule files.
use hsm_doctor.Base.{
  if◌then◌else◌, ℕ, String, Bool, true, false, Option, none, some, List, [], ◌∷◌, ◌&&◌, ◌||◌, ◌==◌,
  eqb,
}
use hsm_doctor.Base.Int.{ℤ, pos, negsuc}
use hsm_doctor.Policy.Severity.{Severity, Scoring, default_scoring}

pub record Condition : Type 0 where
  pub class : String
  pub key_type : String
  pub key_type_in : List String
  pub extractable : Option Bool
  pub sensitive : Option Bool
  pub always_sensitive : Option Bool
  pub never_extractable : Option Bool
  pub modifiable : Option Bool
  pub sign : Option Bool
  pub verify : Option Bool
  pub encrypt : Option Bool
  pub decrypt : Option Bool
  pub derive : Option Bool
  pub wrap : Option Bool
  pub unwrap : Option Bool
  pub key_size_lt : ℕ
  pub curve_in : List String
  pub curve_not_in : List String
  pub cert_expired : Option Bool
  pub cert_expires_within_days : ℤ
  pub cert_validity_days_gt : ℤ
  pub cert_validity_days_lt : ℤ
  pub cert_lifetime_remaining_pct_lt : ℤ
  pub cert_sig_alg_in : List String
  pub cert_is_ca : Option Bool
  pub cert_self_signed : Option Bool
  pub cert_not_yet_valid : Option Bool
  pub cert_key_size_lt : ℕ
  pub cert_pubkey_alg_in : List String
  pub cert_ca_without_keycertsign : Option Bool
  pub cert_key_mismatch : Option Bool
  pub cert_chain_broken : Option Bool
  pub duplicate_label : Option Bool
  pub orphan : Option Bool
  pub mechanism_any_of : List String
  pub mechanism_missing : List String

abbrev pub is_nil : Option Bool → Bool
is_nil none = true
is_nil (some b) = false

-- `len(l) == 0`
abbrev pub is_empty : {A : Type 0} → List A → Bool
is_empty [] = true
is_empty (x ∷ xs) = false

abbrev pub is_zero : ℤ → Bool
is_zero (pos n) = eqb n 0
is_zero (negsuc n) = false

unfoldable pub token_scoped : Condition → Bool
token_scoped c =
    (if is_empty c.mechanism_any_of then false else true)
    || (if is_empty c.mechanism_missing then false else true)

unfoldable pub empty : Condition → Bool
empty c =
    c.class == ""
    && c.key_type == ""
    && is_empty c.key_type_in
    && is_nil c.extractable
    && is_nil c.sensitive
    && is_nil c.always_sensitive
    && is_nil c.never_extractable
    && is_nil c.modifiable
    && is_nil c.sign
    && is_nil c.verify
    && is_nil c.encrypt
    && is_nil c.decrypt
    && is_nil c.derive
    && is_nil c.wrap
    && is_nil c.unwrap
    && eqb c.key_size_lt 0
    && is_empty c.curve_in
    && is_empty c.curve_not_in
    && is_nil c.cert_expired
    && is_zero c.cert_expires_within_days
    && is_zero c.cert_validity_days_gt
    && is_zero c.cert_validity_days_lt
    && is_zero c.cert_lifetime_remaining_pct_lt
    && is_empty c.cert_sig_alg_in
    && is_nil c.cert_is_ca
    && is_nil c.cert_self_signed
    && is_nil c.cert_not_yet_valid
    && eqb c.cert_key_size_lt 0
    && is_empty c.cert_pubkey_alg_in
    && is_nil c.cert_ca_without_keycertsign
    && is_nil c.cert_key_mismatch
    && is_nil c.cert_chain_broken
    && is_nil c.duplicate_label
    && is_nil c.orphan
    && is_empty c.mechanism_any_of
    && is_empty c.mechanism_missing

pub record Rule : Type 0 where
  pub id : String
  pub title : String
  pub severity : Severity
  pub description : String
  pub remediation : String
  pub reference : String
  pub match_on : Condition

pub record PackMeta : Type 0 where
  pub name : String
  pub description : String

-- `SourcePacks`, which the loader fills for reports, is left out.
pub record Config : Type 0 where
  pub pack : Option PackMeta
  pub rules : List Rule
  pub scoring : Option Scoring

unfoldable pub scoring_of : Config → Scoring
scoring_of c = elim c.scoring [ none ↦ default_scoring | some s ↦ s ]
