-- ===== src/Kmip/Loading.antt =====
-- internal/kmip/rules.go: which rule files `Load` accepts.
use hsm_doctor.Base.{◌≡◌, ◌≢◌, ◌↔◌, true, false, none, List, [], ◌∷◌, All, All-map, eq_iff, arith}
use hsm_doctor.Base.Loading.{IsDistinct, first_error-none_iff}
use hsm_doctor.Policy.Severity.{valid}
use hsm_doctor.Kmip.{Rule, RuleSet, empty, fault, loader, load_error}

-- What every rule must have.
pub record IsWellFormed (r : Rule) : Type 0 where
  pub has_id : r.id ≢ ""
  pub has_title : r.title ≢ ""
  pub is_known : valid r.severity ≡ true
  pub has_match : empty r.match_on ≡ false

fault_iff : (r : Rule) → ((r.id ≢ "") × (fault r ≡ none)) ↔ IsWellFormed r
unfolding fault
fault_iff r = ground (arith, eq_iff r.title "")

abbrev pub DistinctIds : List Rule → Type 0
DistinctIds [] = Unit
DistinctIds (r ∷ rs) = All (λ q. q.id ≢ r.id) rs × DistinctIds rs

same_ids : (rs : List Rule) → IsDistinct loader rs ↔ DistinctIds rs
unfolding loader
same_ids [] = (λ h. h, λ h. h)
same_ids (r ∷ rs) = ground (arith, same_ids rs)

-- A decoded rule file is accepted exactly when each of its rules has an id, a title, one of the
-- five severities and a condition that is not empty, and no two share an id; a file without rules
-- is accepted.
pub load_error_iff :
    (cfg : RuleSet) → (load_error cfg ≡ none) ↔ (All IsWellFormed cfg.rules × DistinctIds cfg.rules)
unfolding load_error loader
load_error_iff cfg =
    let (to, from) = first_error-none_iff loader cfg.rules in
    (
      λ e.
          let (h, d) = to e in
          (All-map cfg.rules (λ r. (fault_iff r).0) h, (same_ids cfg.rules).0 d),
      λ (h, d). from (All-map cfg.rules (λ r. (fault_iff r).1) h, (same_ids cfg.rules).1 d),
    )
