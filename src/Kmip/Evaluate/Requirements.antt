-- ===== src/Kmip/Evaluate/Requirements.antt =====
-- internal/kmip/eval.go: what the fields of a condition ask of an object, and that `matchRule`
-- decides all of them together.
use hsm_doctor.Base.{
  String, ◌≡◌, refl, ◌≢◌, ◌↔◌, ◌⊎◌, Bool, true, false, none, some, List, [], ◌∷◌, arith, all, All,
  Any, Elem, eq_iff,
}
use hsm_doctor.Base.Int.{ℤ, pos, ◌≤ℤ◌, ◌<ℤ◌}
use hsm_doctor.Base.Casing.{Casing}
use hsm_doctor.Policy.Condition.{is_empty}
use hsm_doctor.Policy.Guard.Passing.{passes, run_checks-passes, check_fact_iff}
use hsm_doctor.Policy.Match.Requirements.{AllHold, Decides, all-iff_AllHold}
use hsm_doctor.Kmip.{Object, Match, has_usage, weak_key}
use hsm_doctor.Kmip.Evaluate.{
  contains_fold, check_fold, check_length, grants_all, grants_any, check_all_of, check_any_of,
  say_if, rule_checks, match_rule,
}

-- The list holds the text, up to case.
abbrev pub Holds : Casing → List String → String → Type 0
Holds c list want = Any (λ v. c.equal_fold v want ≡ true) list

contains_fold_iff :
    (c : Casing) (list : List String) (want : String)
    → (contains_fold c list want ≡ true) ↔ Holds c list want
unfolding contains_fold
contains_fold_iff c [] want = ground arith
contains_fold_iff c (v ∷ rest) want = ground (arith, contains_fold_iff c rest want)

has_usage_iff : (us : List String) (name : String) → (has_usage us name ≡ true) ↔ Elem name us
unfolding has_usage
has_usage_iff [] name = ground arith
has_usage_iff (u ∷ us) name = ground (arith, has_usage_iff us name, eq_iff u name)

grants_all_iff :
    (us wanted : List String) → (grants_all us wanted ≡ true) ↔ All (λ u. Elem u us) wanted
unfolding grants_all
grants_all_iff us [] = ground arith
grants_all_iff us (u ∷ wanted) = ground (arith, grants_all_iff us wanted, has_usage_iff us u)

grants_any_iff :
    (us wanted : List String) → (grants_any us wanted ≡ true) ↔ Any (λ u. Elem u us) wanted
unfolding grants_any
grants_any_iff us [] = ground arith
grants_any_iff us (u ∷ wanted) = ground (arith, grants_any_iff us wanted, has_usage_iff us u)

check_fold_iff :
    (c : Casing) (list : List String) (have prefix : String)
    → (passes (check_fold c list have prefix) ≡ true) ↔ ((list ≡ []) ⊎ Holds c list have)
unfolding check_fold
check_fold_iff c [] have prefix = ground arith
check_fold_iff c (v ∷ list) have prefix = ground (arith, contains_fold_iff c (v ∷ list) have)

check_length_iff :
    (limit have : ℤ)
    → (passes (check_length limit have) ≡ true)
      ↔ ((limit ≤ℤ pos 0) ⊎ (have ≢ pos 0) × (have <ℤ limit))
unfolding check_length
check_length_iff limit have = ground arith

check_all_of_iff :
    (wanted us : List String)
    → (passes (check_all_of wanted us) ≡ true) ↔ All (λ u. Elem u us) wanted
unfolding check_all_of
check_all_of_iff [] us = ground arith
check_all_of_iff (w ∷ wanted) us = ground (arith, grants_all_iff us (w ∷ wanted))

check_any_of_iff :
    (wanted us : List String)
    → (passes (check_any_of wanted us) ≡ true) ↔ ((wanted ≡ []) ⊎ Any (λ u. Elem u us) wanted)
unfolding check_any_of
check_any_of_iff [] us = ground arith
check_any_of_iff (w ∷ wanted) us = ground (arith, grants_any_iff us (w ∷ wanted))

say_if-passes : (b : Bool) (s : String) → passes (say_if b s) ≡ true
say_if-passes true s = refl
say_if-passes false s = refl

module _ (c : Casing) (o : Object) (m : Match) where
  abbrev requirements : List (Type 0)
  requirements =
      ((m.object_type_in ≡ []) ⊎ Holds c m.object_type_in o.type)
      ∷ ((m.algorithm_in ≡ []) ⊎ Holds c m.algorithm_in o.algorithm)
      ∷ ((m.length_lt ≤ℤ pos 0) ⊎ (o.length ≢ pos 0) × (o.length <ℤ m.length_lt))
      ∷ ((m.state_in ≡ []) ⊎ Holds c m.state_in o.state)
      ∷ All (λ u. Elem u o.usage_mask) m.usage_all_of
      ∷ ((m.usage_any_of ≡ []) ⊎ Any (λ u. Elem u o.usage_mask) m.usage_any_of)
      ∷ ((m.unnamed ≡ none) ⊎ (m.unnamed ≡ some (is_empty o.names)))
      ∷ ((m.weak_key ≡ none) ⊎ (m.weak_key ≡ some (weak_key c o).0))
      ∷ []

  -- Every field of the condition that is set is met.
  abbrev pub Meets : Type 0
  Meets = AllHold requirements

  rule_checks-Decides : Decides (rule_checks c o m) requirements
  unfolding rule_checks
  rule_checks-Decides = (
    check_fold_iff c _ _ _,
    (
      check_fold_iff c _ _ _,
      (
        check_length_iff _ _,
        (
          check_fold_iff c _ _ _,
          (
            check_all_of_iff _ _,
            (
              check_any_of_iff _ _,
              (
                check_fact_iff _ _ _ (say_if-passes _ _),
                (check_fact_iff _ _ _ (say_if-passes _ _), tt),
              ),
            ),
          ),
        ),
      ),
    ),
  )

  match_rule-passes : (match_rule c o m).0 ≡ all passes (rule_checks c o m)
  unfolding match_rule
  match_rule-passes = ground (arith, run_checks-passes (rule_checks c o m))

  -- A rule matches an object exactly when the object meets every field of its condition that is
  -- set: an accepted type, algorithm and state, up to case, a known length below the limit, all of
  -- the usages in one list and one of those in the other, and the wanted answers on having no name
  -- and on being a weak key.
  pub match_rule_iff : ((match_rule c o m).0 ≡ true) ↔ Meets
  match_rule_iff =
      let (to, from) = all-iff_AllHold (rule_checks c o m) requirements rule_checks-Decides in
      ground (arith, match_rule-passes, to, from)
