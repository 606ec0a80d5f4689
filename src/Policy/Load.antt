-- ===== src/Policy/Load.antt =====
-- internal/policy/policy.go: `Merge` and the validation in `Load`. The YAML decoder before it is a
-- library: `validate` is given the decoded rules.
pub mod Ids
pub mod Validating
pub mod Packs
use hsm_doctor.Base.{
  ℕ, ◌+◌, ◌≡◌, refl, String, Bool, true, false, not, Option, none, some, List, [], ◌∷◌, ◌++◌, ◌==◌,
  if◌then◌else◌,
}
use hsm_doctor.Base.Dict.{Dict, lookup, insert, string_eq, or_zero}
use hsm_doctor.Policy.Severity.{Severity, Scoring, valid}
use hsm_doctor.Policy.Condition.{Rule, Config, empty, is_empty}

pub data Error : Type 0 where
  -- the id, the pack that has it, and the pack that brings it again
  shared_id : String → String → String → Error
  no_rules : Error
  -- the number of the rule, from 1
  no_id : ℕ → Error
  duplicate_id : String → Error
  no_title : String → Error
  invalid_severity : String → Severity → Error
  empty_match : String → Error

pub data Outcome (A : Type 0) : Type 0 where
  ok : A → Outcome A
  err : Error → Outcome A

infixl 5 ◌>>=◌
abbrev pub ◌>>=◌ : {A B : Type 0} → Outcome A → (A → Outcome B) → Outcome B
ok a >>= k = k a
err e >>= k = err e

-- A chain that succeeds succeeded in its first step.
pub >>=-eq-ok :
    {A B : Type 0} (m : Outcome A) (k : A → Outcome B) {b : B}
    → (m >>= k) ≡ ok b
    → (a : A) × (m ≡ ok a) × (k a ≡ ok b)
>>=-eq-ok (ok a) k h = (a, refl, h)
>>=-eq-ok (err e) k h = cc

abbrev pub pack_name : Config → String
pack_name cfg = elim cfg.pack [ none ↦ "(unnamed)" | some p ↦ p.name ]

-- The inner loop of `Merge`: the ids seen so far, each with its pack, and the merged rules.
pub merge_rules :
    String → List Rule → Dict String String → List Rule → Outcome (Dict String String × List Rule)
merge_rules pack [] seen merged = ok (seen, merged)
merge_rules pack (r ∷ rest) seen merged =
    let more = merge_rules pack rest (insert r.id pack seen) (merged ++ r ∷ []) in
    elim (lookup r.id seen) [ some owner ↦ err (shared_id r.id owner pack) | none ↦ more ]

abbrev pub first_scoring : Option Scoring → Option Scoring → Option Scoring
first_scoring none s = s
first_scoring (some s) t = some s

-- The outer loop.
pub merge_packs : List Config → Dict String String → Config → Outcome Config
merge_packs [] seen merged = ok merged
merge_packs (cfg ∷ rest) seen merged = do
  (seen', rules) ← merge_rules (pack_name cfg) cfg.rules seen merged.rules
  merge_packs rest seen'
      (record merged { rules = rules; scoring = first_scoring merged.scoring cfg.scoring })

abbrev pub no_config : Config
no_config = record { pack = none; rules = []; scoring = none }

unfoldable pub merge : List Config → Outcome Config
merge configs = do
  merged ← merge_packs configs [] no_config
  if is_empty merged.rules then err no_rules else ok merged

-- One round of the loop in `Load`.
pub check_rule : ℕ → Dict String Bool → Rule → Outcome (Dict String Bool)
check_rule i seen r =
    if r.id == ""
    then err (no_id (i + 1))
    else if or_zero false (lookup r.id seen)
    then err (duplicate_id r.id)
    else if r.title == ""
    then err (no_title r.id)
    else if not (valid r.severity)
    then err (invalid_severity r.id r.severity)
    else if empty r.match_on
    then err (empty_match r.id)
    else ok (insert r.id true seen)

pub check_rules : ℕ → Dict String Bool → List Rule → Outcome (Unit {0})
check_rules i seen [] = ok tt
check_rules i seen (r ∷ rest) = do seen' ← check_rule i seen r; check_rules (i + 1) seen' rest

unfoldable pub validate : Config → Outcome Config
validate cfg =
    if is_empty cfg.rules then err no_rules else do checked ← check_rules 0 [] cfg.rules; ok cfg
