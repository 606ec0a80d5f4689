-- ===== src/Kmip.antt =====
-- internal/kmip/rules.go and internal/kmip/posture.go: KMIP objects, the rules on them, and which
-- rule files are accepted. The YAML decoder before the validation is a library.
pub mod Evaluate
pub mod Loading
pub mod Collect
use text.Mathlib.Text.{starts_with}
use hsm_doctor.Base.{
  ℕ, String, Bool, true, false, not, Option, none, some, List, [], ◌∷◌, ◌&&◌, ◌||◌, ◌==◌,
  if◌then◌else◌,
}
use hsm_doctor.Base.Int.{ℤ, pos, eq_ℤ, ltb_ℤ}
use hsm_doctor.Base.Text.{◌+++◌, decimal_ℤ}
use hsm_doctor.Base.Clock.{Time}
use hsm_doctor.Base.Casing.{Casing, has_text}
use hsm_doctor.Base.Loading.{Loader, first_error}
use hsm_doctor.Policy.Condition.{is_empty}
use hsm_doctor.Policy.Severity.{Severity, critical, high, medium, low, default_scoring, valid}
use hsm_doctor.Policy.Evaluate.{Finding}

pub record Object : Type 0 where
  pub id : String
  pub type : String
  pub algorithm : String
  pub length : ℤ
  pub state : String
  pub usage_mask : List String
  pub names : List String
  pub initial_date : Option Time

pub record Inventory : Type 0 where
  pub endpoint : String
  pub protocol_version : String
  pub scanned_at : Time
  pub objects : List Object

pub record Match : Type 0 where
  pub object_type_in : List String
  pub algorithm_in : List String
  pub length_lt : ℤ
  pub state_in : List String
  pub usage_all_of : List String
  pub usage_any_of : List String
  pub unnamed : Option Bool
  pub weak_key : Option Bool

abbrev is_unset : Option Bool → Bool
is_unset none = true
is_unset (some b) = false

unfoldable pub empty : Match → Bool
empty m =
    is_empty m.object_type_in
    && is_empty m.algorithm_in
    && eq_ℤ m.length_lt (pos 0)
    && is_empty m.state_in
    && is_empty m.usage_all_of
    && is_empty m.usage_any_of
    && is_unset m.unnamed
    && is_unset m.weak_key

pub record Rule : Type 0 where
  pub id : String
  pub title : String
  pub severity : Severity
  pub description : String
  pub remediation : String
  pub reference : String
  pub match_on : Match

pub record PackMeta : Type 0 where
  pub name : String
  pub description : String

pub record RuleSet : Type 0 where
  pub pack : Option PackMeta
  pub rules : List Rule

pub data Error : Type 0 where
  -- the number of the rule, from 1
  no_id : ℕ → Error
  duplicate_id : String → Error
  no_title : String → Error
  invalid_severity : String → Severity → Error
  empty_match : String → Error

-- The tests on a rule after those of its id.
unfoldable pub fault : Rule → Option Error
fault r =
    if r.title == ""
    then some (no_title r.id)
    else if not (valid r.severity)
    then some (invalid_severity r.id r.severity)
    else if empty r.match_on
    then some (empty_match r.id)
    else none

unfoldable pub loader : Loader Rule Error
unfolding fault
loader = record { key = λ r. r.id; no_id = no_id; duplicate = duplicate_id; fault = fault }

-- The error of `Load` for a decoded file, if there is one.
unfoldable pub load_error : RuleSet → Option Error
unfolding loader
load_error cfg = first_error loader 0 [] cfg.rules

-- `RulePacks` of the report, which the command line fills, is left out.
pub record Report : Type 0 where
  pub inventory : Inventory
  pub score : ℤ
  pub findings : List Finding

unfoldable pub severity_penalty : Severity → ℤ
severity_penalty critical = default_scoring.critical
severity_penalty high = default_scoring.high
severity_penalty medium = default_scoring.medium
severity_penalty low = default_scoring.low
severity_penalty _ = pos 0

abbrev first_name : List String → String
first_name [] = ""
first_name (name ∷ rest) = " " +++ name

unfoldable pub object_ref : Object → String
object_ref o =
    (if o.type == "" then "object" else o.type) +++ first_name o.names +++ " (" +++ o.id +++ ")"

unfoldable pub has_usage : List String → String → Bool
has_usage [] name = false
has_usage (u ∷ rest) name = if u == name then true else has_usage rest name

abbrev pub too_short : Object → ℤ → String → Bool × String
too_short o limit detail = if ltb_ℤ o.length limit then (true, detail) else (false, "")

-- Whether the algorithm and the length are below the accepted strength, and why.
unfoldable pub weak_key : Casing → Object → Bool × String
weak_key c o =
    let alg = c.upper o.algorithm in
    let bits = decimal_ℤ o.length in
    if eq_ℤ o.length (pos 0)
    then (false, "")
    else if alg == "DES" || has_text alg "TRIPLE DES" || alg == "DES3"
    then (true, o.algorithm +++ " is a broken cipher")
    else if alg == "RSA" || alg == "DSA" || alg == "DH"
    then too_short o (pos 2048) (o.algorithm +++ " key is " +++ bits +++ " bits (< 2048)")
    else if starts_with alg "EC"
    then too_short o (pos 224) (o.algorithm +++ " key is " +++ bits +++ " bits (< 224)")
    else if alg == "AES"
    then too_short o (pos 128) ("AES key is " +++ bits +++ " bits (< 128)")
    else (false, "")
