-- ===== src/Regression/Laws.antt =====
-- internal/regression/regression.go: when a scan counts as a regression, and which findings it
-- names.
use hsm_doctor.Base.{
  ℕ, String, ◌≡◌, refl, ◌↔◌, ◌⊎◌, ◌≤◌, inl, inr, Bool, true, false, not, ◌&&◌, ◌||◌, none, List, [],
  ◌∷◌, ◌==◌, arith, eq_iff, any, Any, total, if◌then◌else◌, Bool-cases,
}
use hsm_doctor.Base.Int.{ℤ, pos, ◌-ℤ◌, wrap64, leb_ℤ}
use hsm_doctor.Policy.Severity.{Severity, critical, high, medium, low, info, unknown}
use hsm_doctor.Base.Sort.{sort_by-total}
use hsm_doctor.Base.Dict.{Dict, lookup, insert, or_zero, string_eq, lookup-insert}
use hsm_doctor.Policy.Evaluate.{Finding}
use hsm_doctor.Regression.{
  SevereFinding, is_severe, old_severe, new_loop, by_rule, new_severe, dropped, nothing_new, detect,
}

-- Some critical or high finding is by this rule.
abbrev pub severe_rule : String → List Finding → Bool
severe_rule id fs = any (λ f. is_severe f.severity && f.rule_id == id) fs

-- How many of the findings named are by this rule.
abbrev pub named : String → List SevereFinding → ℕ
named id fs = total (λ f. if f.rule_id == id then 1 else 0) fs

old_severe-lookup :
    (id : String) (m : Dict String Bool) (fs : List Finding)
    → or_zero false (lookup id (old_severe m fs))
      ≡ (or_zero false (lookup id m) || severe_rule id fs)
unfolding old_severe
old_severe-lookup id m [] = ground arith
old_severe-lookup id m (f ∷ fs) = elim (Bool-cases (is_severe f.severity)) [
  | inl s ↦ rw s (
      ground (
        arith,
        old_severe-lookup id (insert f.rule_id true m) fs,
        lookup-insert f.rule_id id true m,
      ))
  | inr n ↦ rw n (ground (arith, old_severe-lookup id m fs))
]

new_loop-named :
    (id : String) (old seen : Dict String Bool) (fs : List Finding)
    → named id (new_loop old seen fs) ≡ (
        if severe_rule id fs
          && not (or_zero false (lookup id old))
          && not (or_zero false (lookup id seen))
        then 1
        else 0)
unfolding new_loop
new_loop-named id old seen [] = ground arith
new_loop-named id old seen (f ∷ fs) = ground (
  arith,
  new_loop-named id old seen fs,
  new_loop-named id old (insert f.rule_id true seen) fs,
  lookup-insert f.rule_id id true seen,
  eq_iff f.rule_id id,
)

-- A rule is named once when it has a critical or high finding in the new scan and had none in the
-- old one, and is not named otherwise.
pub new_severe-named :
    (id : String) (old new : List Finding)
    → named id (new_severe old new)
      ≡ (if severe_rule id new && not (severe_rule id old) then 1 else 0)
unfolding new_severe lookup
new_severe-named id old new = ground (
  arith,
  sort_by-total by_rule (λ f. if f.rule_id == id then 1 else 0)
      (new_loop (old_severe [] old) [] new),
  new_loop-named id (old_severe [] old) [] new,
  old_severe-lookup id [] old,
)

nothing_new-named :
    (id : String) (fs : List SevereFinding) → nothing_new fs ≡ true → named id fs ≡ 0
nothing_new-named id [] h = refl
nothing_new-named id (f ∷ fs) h = ground (arith, h)

nothing_new-cases :
    (fs : List SevereFinding) → (nothing_new fs ≡ true) ⊎ ((id : String) × (1 ≤ named id fs))
nothing_new-cases [] = inl refl
nothing_new-cases (f ∷ fs) = inr (f.rule_id, ground (arith, eq_iff f.rule_id f.rule_id))

-- Some finding of the rule is critical or high.
abbrev pub HasSevere : String → List Finding → Type 0
HasSevere id fs = Any (λ f. ((f.severity ≡ critical) ⊎ (f.severity ≡ high)) × (f.rule_id ≡ id)) fs

is_severe_iff : (s : Severity) → (is_severe s ≡ true) ↔ ((s ≡ critical) ⊎ (s ≡ high))
is_severe_iff critical = (λ h. inl refl, λ h. refl)
is_severe_iff high = (λ h. inr refl, λ h. refl)
is_severe_iff medium = (λ h. cc, elim [ inl h ↦ cc | inr h ↦ cc ])
is_severe_iff low = (λ h. cc, elim [ inl h ↦ cc | inr h ↦ cc ])
is_severe_iff info = (λ h. cc, elim [ inl h ↦ cc | inr h ↦ cc ])
is_severe_iff (unknown s) = (λ h. cc, elim [ inl h ↦ cc | inr h ↦ cc ])

severe_rule_iff : (id : String) (fs : List Finding) → (severe_rule id fs ≡ true) ↔ HasSevere id fs
severe_rule_iff id [] = (λ h. cc, λ h. absurd h)
severe_rule_iff id (f ∷ fs) =
    ground (arith, is_severe_iff f.severity, eq_iff f.rule_id id, severe_rule_iff id fs)

-- There is no regression exactly when the old score less the new one, as a 64-bit number, is below
-- the threshold, which is 10 where the one given is not positive, and every rule with a critical or
-- high finding in the new scan had one in the old scan.
pub detect-none_iff :
    (old new : ℤ) (old_findings new_findings : List Finding) (drop : ℤ)
    → (detect old new old_findings new_findings drop ≡ none) ↔ (
        (leb_ℤ (if leb_ℤ drop (pos 0) then pos 10 else drop) (wrap64 (old -ℤ new)) ≡ false)
        × ((id : String) → HasSevere id new_findings → HasSevere id old_findings))
unfolding detect
detect-none_iff old new old_findings new_findings drop =
    let severe = new_severe old_findings new_findings in
    (
      λ h.
          let quiet : (dropped old new drop ≡ false) × (nothing_new severe ≡ true) = ground arith in
          (
            quiet.0,
            λ id s. (severe_rule_iff id old_findings).0 (
                ground (
                  arith,
                  quiet.1,
                  (severe_rule_iff id new_findings).1 s,
                  new_severe-named id old_findings new_findings,
                  nothing_new-named id severe,
                )),
          ),
      λ (h, k). elim (nothing_new-cases severe) [
        | inl nothing ↦ ground (arith, nothing, h)
        | inr (id, m) ↦
            let k' : severe_rule id new_findings ≡ true → severe_rule id old_findings ≡ true = λ s.
              (severe_rule_iff id old_findings).1 (k id ((severe_rule_iff id new_findings).0 s)) in
            absurd (ground (arith, k', m, new_severe-named id old_findings new_findings))
      ],
    )
