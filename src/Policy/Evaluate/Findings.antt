-- ===== src/Policy/Evaluate/Findings.antt =====
-- internal/policy/eval.go: which findings `Evaluate` reports, and in which order.
use hsm_doctor.Base.{
  String, ◌≡◌, refl, ◌↔◌, ◌⊎◌, Bool, true, false, not, List, [], ◌∷◌, ◌≢◌, ◌==◌, arith, keep, any,
  Any, All, Elem, Any-append_left, Any-append_right, Any-append_cases, Any-map, All-map, any_iff,
  any_none_iff, Bool-cases, inl, inr,
}
use hsm_doctor.Base.Sort.{IsSorted, sort_by-IsSorted, sort_by-Any_iff, by_rank-IsOrder}
use hsm_doctor.Base.Clock.{Time, Format}
use hsm_doctor.Inventory.{Inventory, Object}
use hsm_doctor.Policy.Condition.{Rule, Config, is_empty, token_scoped}
use hsm_doctor.Policy.Facts.{Facts, build_facts}
use hsm_doctor.Policy.Match.{match_object}
use hsm_doctor.Policy.Match.Requirements.{Meets, match_object_iff}
use hsm_doctor.Policy.Evaluate.{
  Finding, object_ref, finding_of, more_severe, sort_findings, advertises, mechanism_findings,
  object_finding, object_findings, rule_findings, all_findings, evaluate,
}

module _ (fmt : Format) (f : Facts) (r : Rule) (g : Finding) where
  -- The finding of a rule at an object that meets its condition.
  abbrev pub FiresAt : Object → Type 0
  FiresAt o =
      Meets fmt r.match_on o f × (g ≡ finding_of r (object_ref o) (match_object fmt r o f).1)

  object_finding-Elem_iff : (o : Object) → Elem g (object_finding fmt f r o) ↔ FiresAt o
  unfolding object_finding
  object_finding-Elem_iff o =
      let (to, from) = match_object_iff fmt r o f in
      elim (Bool-cases (match_object fmt r o f).0) [
        | inl e ↦ rw e (elim [ inl p ↦ (to e, p) | inr n ↦ absurd n ], λ h. inl h.1)
        | inr e ↦ rw e (λ n. absurd n, λ h. cc (from h.0))
      ]

  object_findings-Elem_iff :
      (os : List Object) → Elem g (object_findings fmt f r os) ↔ Any FiresAt os
  unfolding object_findings
  object_findings-Elem_iff [] = (λ n. n, λ n. n)
  object_findings-Elem_iff (o ∷ os) =
      let (to, from) = object_finding-Elem_iff o in
      let (to', from') = object_findings-Elem_iff os in
      (
        λ m. elim (Any-append_cases _ (object_finding fmt f r o) (object_findings fmt f r os) m) [
          | inl a ↦ inl (to a)
          | inr b ↦ inr (to' b)
        ],
        elim [
          | inl h ↦ Any-append_left _ _ _ (from h)
          | inr h ↦ Any-append_right _ (object_finding fmt f r o) _ (from' h)
        ],
      )

module _ (fmt : Format) (inv : Inventory) (f : Facts) (g : Finding) where
  -- Why a rule reports a finding: a token-scoped rule by the mechanisms, any other rule at one of
  -- the objects.
  abbrev pub Fires : Rule → Type 0
  Fires r =
      (token_scoped r.match_on ≡ true) × Elem g (mechanism_findings inv r)
      ⊎ (token_scoped r.match_on ≡ false) × Any (FiresAt fmt f r g) inv.objects

  rule_findings-Elem_iff : (r : Rule) → Elem g (rule_findings fmt inv f r) ↔ Fires r
  unfolding rule_findings
  rule_findings-Elem_iff r =
      let (to, from) = object_findings-Elem_iff fmt f r g inv.objects in
      elim (Bool-cases (token_scoped r.match_on)) [
        | inl e ↦ rw e (λ m. inl (refl, m), elim [ inl h ↦ h.1 | inr h ↦ cc (h.0) ])
        | inr e ↦ rw e (λ m. inr (refl, to m), elim [ inl h ↦ cc (h.0) | inr h ↦ from h.1 ])
      ]

  all_findings-Elem_iff : (rs : List Rule) → Elem g (all_findings fmt inv f rs) ↔ Any Fires rs
  unfolding all_findings
  all_findings-Elem_iff [] = (λ n. n, λ n. n)
  all_findings-Elem_iff (r ∷ rs) =
      let (to, from) = rule_findings-Elem_iff r in
      let (to', from') = all_findings-Elem_iff rs in
      (
        λ m. elim (Any-append_cases _ (rule_findings fmt inv f r) (all_findings fmt inv f rs) m) [
          | inl a ↦ inl (to a)
          | inr b ↦ inr (to' b)
        ],
        elim [
          | inl h ↦ Any-append_left _ _ _ (from h)
          | inr h ↦ Any-append_right _ (rule_findings fmt inv f r) _ (from' h)
        ],
      )

-- The findings are sorted from the most to the least severe.
pub evaluate-IsSorted :
    (fmt : Format) (inv : Inventory) (cfg : Config) (now : Time)
    → IsSorted more_severe (evaluate fmt inv cfg now).findings
unfolding evaluate sort_findings
evaluate-IsSorted fmt inv cfg now = sort_by-IsSorted (by_rank-IsOrder _) _

-- A finding is reported exactly when some rule fires: a token-scoped rule by the mechanisms, any
-- other rule at an object that meets its condition, with the rule's texts and the object's name.
pub evaluate-Elem_iff :
    (fmt : Format) (inv : Inventory) (cfg : Config) (now : Time) (g : Finding)
    → Elem g (evaluate fmt inv cfg now).findings
      ↔ Any (Fires fmt inv (build_facts inv now) g) cfg.rules
unfolding evaluate sort_findings
evaluate-Elem_iff fmt inv cfg now g =
    let f = build_facts inv now in
    let (to, from) = all_findings-Elem_iff fmt inv f g cfg.rules in
    let (to', from') =
      sort_by-Any_iff more_severe (λ x. g ≡ x) (all_findings fmt inv f cfg.rules) in
    (λ m. to (to' m), λ h. from' (from h))

is_empty_iff : {A : Type 0} (l : List A) → (is_empty l ≡ true) ↔ (l ≡ [])
is_empty_iff [] = (λ t. refl, λ t. refl)
is_empty_iff (x ∷ l) = (λ t. cc, λ t. cc)

is_empty-keep : {A : Type 0} (p : A → Bool) (l : List A) → is_empty (keep p l) ≡ not (any p l)
is_empty-keep p [] = refl
is_empty-keep p (x ∷ l) = ground (arith, is_empty-keep p l)

module _ (inv : Inventory) where
  any_advertised_iff :
      (l : List String)
      → (any (advertises inv) l ≡ true)
        ↔ Any (λ name. Any (λ m. (m.name == name) ≡ true) inv.mechanisms) l
  unfolding advertises
  any_advertised_iff l =
      let (to, from) = any_iff (advertises inv) l in
      (
        λ t. Any-map l (λ name. (any_iff (λ m. m.name == name) inv.mechanisms).0) (to t),
        λ h. from (Any-map l (λ name. (any_iff (λ m. m.name == name) inv.mechanisms).1) h),
      )

  none_advertised_iff :
      (l : List String)
      → (any (advertises inv) l ≡ false)
        ↔ All (λ name. All (λ m. (m.name == name) ≡ false) inv.mechanisms) l
  unfolding advertises
  none_advertised_iff l =
      let (to, from) = any_none_iff (advertises inv) l in
      (
        λ t. All-map l (λ name. (any_none_iff (λ m. m.name == name) inv.mechanisms).0) (to t),
        λ h. from (All-map l (λ name. (any_none_iff (λ m. m.name == name) inv.mechanisms).1) h),
      )

-- A token-scoped rule fires exactly when one of its unwanted mechanisms is advertised or, if it
-- lists none, when no wanted one is.
pub mechanism_findings_iff :
    (inv : Inventory) (r : Rule)
    → (mechanism_findings inv r ≢ []) ↔ (
        (r.match_on.mechanism_any_of ≢ [])
          × Any
              (λ name. Any (λ m. (m.name == name) ≡ true) inv.mechanisms)
              r.match_on.mechanism_any_of
        ⊎ (r.match_on.mechanism_any_of ≡ [])
          × All
              (λ name. All (λ m. (m.name == name) ≡ false) inv.mechanisms)
              r.match_on.mechanism_missing)
unfolding mechanism_findings
mechanism_findings_iff inv r =
    let wanted = r.match_on.mechanism_missing in
    let unwanted = r.match_on.mechanism_any_of in
    ground (
      arith,
      is_empty_iff unwanted,
      is_empty-keep (advertises inv) unwanted,
      any_advertised_iff inv unwanted,
      none_advertised_iff inv wanted,
    )
