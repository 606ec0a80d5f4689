-- ===== src/Policy/Packs/Texts.antt =====
-- internal/cli/packs.go and rules/embed.go: the text of a pack, and what `Load` makes of it.
use mathlib.Core.Path.{subst}
use hsm_doctor.Base.{
  String, ◌≡◌, ◌≢◌, ◌↔◌, ◌⊎◌, inl, inr, refl, sym, ◌∙◌, Option, none, some, [], ◌==◌, eq_iff, arith,
  All, Bool-cases, Option-cases,
}
use hsm_doctor.Base.Text.{◌+++◌}
use hsm_doctor.Base.Fallible.{Fallible, done, Fallible-cases}
use hsm_doctor.Policy.Condition.{Config}
use hsm_doctor.Policy.Load.{Outcome, ok, err, validate}
use hsm_doctor.Policy.Load.Validating.{IsWellFormed, validate_iff}
use hsm_doctor.Policy.Load.Ids.{IsDistinct}
use hsm_doctor.Policy.Packs.{
  Attempt, resolved, problem, within, load, pack_data, not_a_pack, of_outcome, load_pack,
}

pub of_outcome-eq-resolved :
    {A : Type 0} (m : Outcome A) {a : A} → of_outcome m ≡ resolved a → m ≡ ok a
of_outcome-eq-resolved (ok b) h = cc
of_outcome-eq-resolved (err e) h = cc

-- What the validation of a rules file asks for.
abbrev pub IsAccepted : Config → Type 0
IsAccepted c = (c.rules ≢ []) × All IsWellFormed c.rules × IsDistinct c.rules

within_iff :
    (n : String) (m : Attempt Config) (c : Config) → (within n m ≡ resolved c) ↔ (m ≡ resolved c)
within_iff n (resolved x) c = (λ e. e, λ e. e)
within_iff n (problem p) c = (λ e. cc, λ e. cc)

module _ (read_file : String → Option String) (embedded : String → Option String)
    (decode : String → Fallible Config) (default_rules : String) where
  -- The text of a pack: the default rules, the embedded pack of the name, or else the file.
  abbrev pub HasText : String → String → Type 0
  HasText n text =
      (n ≡ "default") × (text ≡ default_rules)
      ⊎ (n ≢ "default") × (embedded (n +++ ".yaml") ≡ some text)
      ⊎ (n ≢ "default") × (embedded (n +++ ".yaml") ≡ none) × (read_file n ≡ some text)

  -- The pack of a name has a text, which decodes to rules that are accepted.
  abbrev pub IsPack : String → Config → Type 0
  IsPack n c = (text : String) × HasText n text × (decode text ≡ done c) × IsAccepted c

  load_iff :
      (text : String) (c : Config)
      → (load read_file embedded decode default_rules text ≡ resolved c)
        ↔ ((decode text ≡ done c) × IsAccepted c)
  unfolding load
  load_iff text c = elim (Fallible-cases (decode text)) [
    | inr (m, e) ↦ (λ h. let h' = rw (load, e) at h in absurd cc, λ (d, _). absurd cc)
    | inl (cfg, e) ↦ (
      λ h.
          let h' : of_outcome (validate cfg) ≡ resolved c = rw (load, e) at h in
          let (same, filled, formed, distinct) =
            (validate_iff cfg c).0 (of_outcome-eq-resolved (validate cfg) h') in
          (cc, subst IsAccepted (sym same) (filled, formed, distinct)),
      λ (d, accepted).
          let same : c ≡ cfg = cc in
          let (filled, formed, distinct) = subst IsAccepted same accepted in
          let valid = (validate_iff cfg c).1 (same, filled, formed, distinct) in
          rw (load, e, valid) refl,
    )
  ]

  Found : String → Type 0
  Found n =
      (text : String) × HasText n text
      × (load_pack read_file embedded decode default_rules n
          ≡ within n (load read_file embedded decode default_rules text))
      × ((other : String) → HasText n other → text ≡ other)

  Missing : String → Type 0
  Missing n =
      (load_pack read_file embedded decode default_rules n ≡ problem (not_a_pack n))
      × ((other : String) → ¬ (HasText n other))

  -- There is one text for a name, or none.
  text_cases : (n : String) → Found n ⊎ Missing n
  unfolding load_pack pack_data Found Missing
  text_cases n = elim (Bool-cases (n == "default")) [
    | inl f ↦
        let is_default = (eq_iff n "default").0 f in
        inl (
          default_rules,
          inl (is_default, refl),
          rw (load_pack, f) refl,
          λ other. elim [
            | inl (_, q) ↦ sym q
            | inr (inl (no_default, _)) ↦ absurd (no_default is_default)
            | inr (inr (no_default, _, _)) ↦ absurd (no_default is_default)
          ],
        )
    | inr f ↦
        let no_default : n ≢ "default" = λ z. ground (arith, eq_iff n "default") in
        elim (Option-cases (embedded (n +++ ".yaml"))) [
          | inr (text, g) ↦ inl (
            text,
            inr (inl (no_default, g)),
            rw (load_pack, f, g) refl,
            λ other. elim [
              | inl (d, _) ↦ absurd (no_default d)
              | inr (inl (_, h)) ↦ cc
              | inr (inr (_, h, _)) ↦ absurd cc
            ],
          )
          | inl g ↦ elim (Option-cases (read_file n)) [
            | inr (text, r) ↦ inl (
              text,
              inr (inr (no_default, g, r)),
              rw (load_pack, f, g, r) refl,
              λ other. elim [
                | inl (d, _) ↦ absurd (no_default d)
                | inr (inl (_, h)) ↦ absurd cc
                | inr (inr (_, _, h)) ↦ cc
              ],
            )
            | inl r ↦ inr (
              rw (load_pack, f, g, r) refl,
              λ other. elim [
                | inl (d, _) ↦ no_default d
                | inr (inl (_, h)) ↦ cc
                | inr (inr (_, _, h)) ↦ cc
              ],
            )
          ]
        ]
  ]

  pub load_pack_iff :
      (n : String) (c : Config)
      → (load_pack read_file embedded decode default_rules n ≡ resolved c) ↔ IsPack n c
  unfolding Found Missing
  load_pack_iff n c = elim (text_cases n) [
    | inl (text, has, e, one) ↦
        let (to, from) = within_iff n (load read_file embedded decode default_rules text) c in
        let (to', from') = load_iff text c in
        (
          λ h. let (d, accepted) = to' (to (sym e ∙ h)) in (text, has, d, accepted),
          λ (other, has', d, accepted).
              let same = one other has' in
              e ∙ from (from' (subst (λ z. decode z ≡ done c) (sym same) d, accepted)),
        )
    | inr (e, none_has) ↦ (λ h. absurd cc, λ (other, has, _, _). absurd (none_has other has))
  ]
