-- ===== src/Policy/Load/Validating.antt =====
-- internal/policy/policy.go: which rule files `Load` accepts.
use hsm_doctor.Base.{
  ℕ, ◌+◌, String, ◌≡◌, refl, ap, sym, ◌∙◌, ◌≢◌, ◌↔◌, Bool, true, false, none, List, [], ◌∷◌, eq_iff,
  arith, All, List-cases, inl, inr,
}
use mathlib.Core.Path.{subst}
use hsm_doctor.Base.Dict.{Dict, lookup, insert, lookup-insert, string_eq, or_zero}
use hsm_doctor.Policy.Severity.{
  Severity, critical, high, medium, low, info, unknown, severity_order, valid,
}
use hsm_doctor.Policy.Condition.{Rule, Config, empty}
use hsm_doctor.Policy.Load.{ok, ◌>>=◌, check_rule, check_rules, validate, >>=-eq-ok}
use hsm_doctor.Policy.Load.Ids.{IsDistinct, IsFresh, IsFresh-nil, IsFresh-cons_iff}

-- What every rule must have.
pub record IsWellFormed (r : Rule) : Type 0 where
  pub has_id : r.id ≢ ""
  pub has_title : r.title ≢ ""
  pub is_known : (text : String) → r.severity ≢ unknown text
  pub has_match : empty r.match_on ≡ false

-- The set that the loop keeps holds nothing but `true`.
abbrev OnlyTrue : Dict String Bool → Type 0
OnlyTrue seen = (k : String) → or_zero false (lookup k seen) ≡ false → lookup k seen ≡ none

insert-OnlyTrue :
    (seen : Dict String Bool) (k : String) → OnlyTrue seen → OnlyTrue (insert k true seen)
insert-OnlyTrue seen k h j = rw lookup-insert (ground (arith, h j))

valid_iff : (s : Severity) → (valid s ≡ true) ↔ ((text : String) → s ≢ unknown text)
unfolding valid severity_order
valid_iff critical = (λ t text. λ e. cc, λ h. refl)
valid_iff high = (λ t text. λ e. cc, λ h. refl)
valid_iff medium = (λ t text. λ e. cc, λ h. refl)
valid_iff low = (λ t text. λ e. cc, λ h. refl)
valid_iff info = (λ t text. λ e. cc, λ h. refl)
valid_iff (unknown s) = (λ t. cc, λ h. absurd (h s refl))

-- One round goes on exactly when the rule is well-formed and its id is new.
check_rule_iff :
    (i : ℕ) (seen : Dict String Bool) (r : Rule)
    → OnlyTrue seen
    → (check_rule i seen r ≡ ok (insert r.id true seen))
      ↔ (IsWellFormed r × (lookup r.id seen ≡ none))
unfolding check_rule
check_rule_iff i seen r only =
    let (to, from) = valid_iff r.severity in
    (
      λ e. (
        record {
          has_id = ground (arith, eq_iff r.id "");
          has_title = ground (arith, eq_iff r.title "");
          is_known = to (ground arith);
          has_match = ground arith;
        },
        only r.id (ground arith),
      ),
      λ (w, fresh).
          let known = from w.is_known in
          ground (arith, eq_iff r.id "", eq_iff r.title "", w.has_id, w.has_title, w.has_match),
    )

check_rule-eq-ok :
    (i : ℕ) (seen seen' : Dict String Bool) (r : Rule)
    → check_rule i seen r ≡ ok seen'
    → check_rule i seen r ≡ ok (insert r.id true seen)
unfolding check_rule
check_rule-eq-ok i seen seen' r e = ground arith

check_rules_iff :
    (i : ℕ) (seen : Dict String Bool) (rs : List Rule)
    → OnlyTrue seen
    → (check_rules i seen rs ≡ ok tt) ↔ (All IsWellFormed rs × IsFresh seen rs)
unfolding check_rules
check_rules_iff i seen [] only = (λ e. (tt, (tt, tt)), λ h. refl)
check_rules_iff i seen (r ∷ rs) only =
    let seen' = insert r.id true seen in
    let (to, from) = check_rule_iff i seen r only in
    let (to', from') = check_rules_iff (i + 1) seen' rs (insert-OnlyTrue seen r.id only) in
    let (split, join) = IsFresh-cons_iff seen true r rs in
    (
      λ e.
          let (s, p, q) = >>=-eq-ok (check_rule i seen r) _ e in
          let same : s ≡ seen' = cc (p, check_rule-eq-ok i seen s r p) in
          let (w, new) = to (check_rule-eq-ok i seen s r p) in
          let (ws, fresh) = to' (subst (λ t. check_rules (i + 1) t rs ≡ ok tt) same q) in
          ((w, ws), join (new, fresh)),
      λ (w, fresh). let (new, later) = split fresh in rw (from (w.0, new)) (from' (w.1, later)),
    )

empty-OnlyTrue : OnlyTrue []
unfolding lookup
empty-OnlyTrue k h = refl

accepted_iff :
    (cfg : Config)
    → (validate cfg ≡ ok cfg)
      ↔ ((cfg.rules ≢ []) × All IsWellFormed cfg.rules × IsDistinct cfg.rules)
unfolding validate
accepted_iff cfg =
    let (to, from) = check_rules_iff 0 [] cfg.rules empty-OnlyTrue in
    elim (List-cases cfg.rules) [
      | inl e ↦ (λ t. ground arith, λ (some_rules, w, d). absurd (some_rules e))
      | inr (r, rs, e) ↦ (
        λ t.
            let t' : (check_rules 0 [] cfg.rules >>= λ u. ok cfg) ≡ ok cfg = ground arith in
            let checked = (>>=-eq-ok (check_rules 0 [] cfg.rules) (λ u. ok cfg) t').1 in
            let (w, fresh) = to checked in ((λ p. cc), w, fresh.1),
        λ (some_rules, w, d). let checked = from (w, IsFresh-nil Bool cfg.rules d) in ground arith,
      )
    ]

validate-returned : (cfg c : Config) → validate cfg ≡ ok c → c ≡ cfg
unfolding validate
validate-returned cfg c e = elim (List-cases cfg.rules) [
  | inl n ↦ absurd (ground arith)
  | inr (r, rs, n) ↦
      let e' : (check_rules 0 [] cfg.rules >>= λ u. ok cfg) ≡ ok c = ground arith in
      let (u, p, q) = >>=-eq-ok (check_rules 0 [] cfg.rules) (λ u. ok cfg) e' in cc
]

-- The result of the validation is a rules file exactly when it is the decoded one, which then has
-- rules, each of them with an id, a title, a severity that is one of the five and a condition that
-- is not empty, and no two with the same id.
pub validate_iff :
    (cfg c : Config)
    → (validate cfg ≡ ok c)
      ↔ ((c ≡ cfg) × (cfg.rules ≢ []) × All IsWellFormed cfg.rules × IsDistinct cfg.rules)
validate_iff cfg c = (
  λ e.
      let same = validate-returned cfg c e in
      let (filled, formed, distinct) =
        (accepted_iff cfg).0 (subst (λ z. validate cfg ≡ ok z) same e) in
      (same, filled, formed, distinct),
  λ (same, filled, formed, distinct).
      (accepted_iff cfg).1 (filled, formed, distinct) ∙ ap ok (sym same),
)
