-- ===== src/Advisory/Matching.antt =====
-- internal/advisory/advisory.go: which findings `Evaluate` reports.
use mathlib.Core.Path.{subst}
use hsm_doctor.Base.{
  ◌≡◌, refl, ◌↔◌, ◌⊎◌, inl, inr, String, Bool, true, false, Option, none, some, List, [], ◌∷◌, ◌≢◌,
  eqb, ◌||◌, arith, length, Any, Elem, Elem-append_iff, Bool-cases, eq_iff,
}
use hsm_doctor.Base.Int.{pos, leb_ℤ}
use hsm_doctor.Base.Casing.{Casing}
use hsm_doctor.Inventory.{ModuleInfo, TokenInfo}
use hsm_doctor.Policy.Evaluate.{Finding}
use hsm_doctor.Advisory.{
  Match, Advisory, contains_fold, parse_version, compare_parts, compare_versions, subject, is_fixed,
  is_older, finding_of, affected, advisory_finding, evaluate,
}
use hsm_doctor.Advisory.Versions.{Below, leb-Below}

-- Both versions have a number, and the left one is below the right one.
abbrev pub Older : String → String → Type 0
Older a b =
    (parse_version a ≢ []) × (parse_version b ≢ []) × Below (parse_version a) (parse_version b)

-- Both versions have a number, and the left one is not below the right one.
abbrev pub AtLeast : String → String → Type 0
AtLeast a b =
    (parse_version a ≢ []) × (parse_version b ≢ []) × ¬ Below (parse_version a) (parse_version b)

length_iff {ℓ} : {A : Type ℓ} (l : List A) → (eqb (length l) 0 ≡ true) ↔ (l ≡ [])
length_iff [] = (λ e. refl, λ e. refl)
length_iff (x ∷ l) = ground arith

-- Whether one of the versions has no number.
abbrev unreadable : String → String → Bool
unreadable a b = eqb (length (parse_version a)) 0 || eqb (length (parse_version b)) 0

readable_iff :
    (a b : String) → (unreadable a b ≡ false) ↔ ((parse_version a ≢ []) × (parse_version b ≢ []))
readable_iff a b = ground (arith, length_iff (parse_version a), length_iff (parse_version b))

compare_readable :
    (a b : String)
    → unreadable a b ≡ false
    → compare_versions a b ≡ some (compare_parts (parse_version a) (parse_version b))
unfolding compare_versions
compare_readable a b e = rw e

compare_unreadable : (a b : String) → unreadable a b ≡ true → compare_versions a b ≡ none
unfolding compare_versions
compare_unreadable a b e = rw e

is_fixed_iff : (v f : String) → (is_fixed v f ≡ false) ↔ Older v f
unfolding is_fixed
is_fixed_iff v f =
    let (split, both) = readable_iff v f in
    let (to, from) = leb-Below (parse_version v) (parse_version f) in
    elim (Bool-cases (unreadable v f)) [
      | inl e ↦ rw (compare_unreadable v f e, is_fixed) (λ q. cc, λ (p, q, h). cc (e, both (p, q)))
      | inr e ↦
          let (p, q) = split e in
          rw (compare_readable v f e, is_fixed) (λ s. (p, q, to s), λ (p, q, h). from h)
    ]

below_cases :
    (a b : String)
    → (is_older a b ≡ false) ↔ (
        (parse_version a ≢ [])
        × (parse_version b ≢ [])
        × (leb_ℤ (pos 0) (compare_parts (parse_version a) (parse_version b)) ≡ true))
unfolding is_older
below_cases a b =
    let (split, both) = readable_iff a b in
    elim (Bool-cases (unreadable a b)) [
      | inl e ↦ rw (compare_unreadable a b e, is_older) (λ q. cc, λ (p, q, h). cc (e, both (p, q)))
      | inr e ↦
          let (p, q) = split e in
          rw (compare_readable a b e, is_older)
            (λ s. (p, q, ground arith), λ (p, q, h). ground arith)
    ]

is_older_iff : (v i : String) → (is_older v i ≡ false) ↔ AtLeast v i
is_older_iff v i =
    let (to, from) = below_cases v i in
    let (below, sign) = leb-Below (parse_version v) (parse_version i) in
    (
      λ e. let (p, q, h) = to e in (p, q, λ b. cc (h, sign b)),
      λ (p, q, n). from (
        p,
        q,
        elim (Bool-cases (leb_ℤ (pos 0) (compare_parts (parse_version v) (parse_version i)))) [
          | inl h ↦ h
          | inr h ↦ absurd (n (below h))
        ],
      ),
    )

-- The manufacturer and the model contain what the advisory names, and the version is in its range.
abbrev pub Affects : Casing → Match → String × String × String → Type 0
Affects c m (version, manufacturer, model) =
    ((m.manufacturer ≡ "") ⊎ (contains_fold c manufacturer m.manufacturer ≡ true))
    × ((m.model ≡ "") ⊎ (contains_fold c model m.model ≡ true))
    × Older version m.fixed_in
    × ((m.introduced_in ≡ "") ⊎ AtLeast version m.introduced_in)

affected_tests :
    (c : Casing) (m : Match) (version manufacturer model : String)
    → (affected c m (version, manufacturer, model) ≡ true) ↔ (
        ((m.manufacturer ≡ "") ⊎ (contains_fold c manufacturer m.manufacturer ≡ true))
        × ((m.model ≡ "") ⊎ (contains_fold c model m.model ≡ true))
        × (is_fixed version m.fixed_in ≡ false)
        × ((m.introduced_in ≡ "") ⊎ (is_older version m.introduced_in ≡ false)))
unfolding affected
affected_tests c m version manufacturer model =
    ground (arith, eq_iff m.manufacturer "", eq_iff m.model "", eq_iff m.introduced_in "")

affected_iff :
    (c : Casing) (m : Match) (s : String × String × String)
    → (affected c m s ≡ true) ↔ Affects c m s
affected_iff c m (version, manufacturer, model) =
    let (to, from) = affected_tests c m version manufacturer model in
    let (fixed, fixed') = is_fixed_iff version m.fixed_in in
    let (old, old') = is_older_iff version m.introduced_in in
    (
      λ e.
          let (a, b, f, o) = to e in
          (a, b, fixed f, elim o [ inl p ↦ inl p | inr q ↦ inr (old q) ]),
      λ (a, b, f, o). from (a, b, fixed' f, elim o [ inl p ↦ inl p | inr q ↦ inr (old' q) ]),
    )

module _ (c : Casing) (mod_info : ModuleInfo) (token : Option TokenInfo) (g : Finding) where
  -- The finding of an advisory: its component is known, and it affects it.
  abbrev pub Reports : Advisory → Type 0
  Reports a =
      (s : String × String × String) × (subject mod_info token a.match_on.component ≡ some s)
      × Affects c a.match_on s
      × (g ≡ finding_of a s)

  advisory_finding-Elem_iff :
      (a : Advisory) (o : Option (String × String × String))
      → subject mod_info token a.match_on.component ≡ o
      → Elem g (advisory_finding c a o) ↔ Reports a
  unfolding advisory_finding
  advisory_finding-Elem_iff a none e = (λ n. absurd n, λ (s, p, h, q). cc)
  advisory_finding-Elem_iff a (some s) e =
      let (to, from) = affected_iff c a.match_on s in
      elim (Bool-cases (affected c a.match_on s)) [
        | inl t ↦
            rw t (elim [ inl q ↦ (s, e, to t, q) | inr n ↦ absurd n ], λ (s', p, h, q). inl (cc))
        | inr f ↦ rw f (
          λ n. absurd n,
          λ (s', p, h, q).
              let same : s' ≡ s = cc in cc (f, from (subst (Affects c a.match_on) same h)),
        )
      ]

  -- A feed reports a finding exactly when one of its advisories names a component that is there,
  -- whose manufacturer and model contain the texts that it gives, and whose version has a number and
  -- is below the one that fixes it and not below the one that introduced it, if that is given; the
  -- finding has the texts of the advisory and of the component.
  pub evaluate_iff :
      (feed : List Advisory) → Elem g (evaluate c mod_info token feed) ↔ Any Reports feed
  unfolding evaluate
  evaluate_iff [] = (λ n. n, λ n. n)
  evaluate_iff (a ∷ rest) =
      let o = subject mod_info token a.match_on.component in
      let (to, from) =
        Elem-append_iff g (advisory_finding c a o) (evaluate c mod_info token rest) in
      let (to₁, from₁) = advisory_finding-Elem_iff a o refl in
      let (to₂, from₂) = evaluate_iff rest in
      (
        λ m. elim (to m) [ inl x ↦ inl (to₁ x) | inr y ↦ inr (to₂ y) ],
        elim [ inl h ↦ from (inl (from₁ h)) | inr h ↦ from (inr (from₂ h)) ],
      )
