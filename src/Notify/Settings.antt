-- ===== src/Notify/Settings.antt =====
-- internal/notify/notify.go: which configurations are accepted.
use mathlib.Core.Path.{subst}
use hsm_doctor.Base.{
  String, ◌≡◌, refl, sym, ap, ◌∙◌, ◌≢◌, ◌↔◌, ◌⊎◌, false, none, List, [], ◌∷◌, eqb, length, eq_iff,
  arith, ◌==◌, Bool-cases, Option-cases, inl, inr,
}
use hsm_doctor.Base.Int.{pos, eq_ℤ_iff}
use hsm_doctor.Notify.{
  SmtpConfig, missing_field, mode_error, with_mode, Config, validate, defaulted,
}

-- A text that names one of the modes.
abbrev pub Mode : String → Type 0
Mode m = (m ≡ "starttls") ⊎ (m ≡ "implicit") ⊎ (m ≡ "none")

to-nil_iff : (l : List String) → (eqb (length l) 0 ≡ false) ↔ (l ≢ [])
to-nil_iff [] = (λ e. cc, λ n. absurd (n refl))
to-nil_iff (x ∷ l) = (λ e. λ p. cc, λ n. ground arith)

missing_field_iff :
    (s : SmtpConfig)
    → (missing_field s ≡ none)
      ↔ ((s.host ≢ "") × (s.port ≢ pos 0) × (s.from_address ≢ "") × (s.to ≢ []))
unfolding missing_field
missing_field_iff s =
    ground
      (arith, eq_iff s.host "", eq_ℤ_iff s.port (pos 0), eq_iff s.from_address "", to-nil_iff s.to)

mode_error-none_iff : (m : String) → (mode_error m ≡ none) ↔ Mode m
unfolding mode_error
mode_error-none_iff m = ground (arith, eq_iff m "starttls", eq_iff m "implicit", eq_iff m "none")

defaulted_cases :
    (m : String) → (m ≡ "") × (defaulted m ≡ "starttls") ⊎ (m ≢ "") × (defaulted m ≡ m)
defaulted_cases m = elim (Bool-cases (m == "")) [
  | inl e ↦ inl ((eq_iff m "").0 e, rw e)
  | inr e ↦ inr (λ p. cc (e, (eq_iff m "").1 p), rw e)
]

mode_error_iff : (m : String) → (mode_error (defaulted m) ≡ none) ↔ ((m ≡ "") ⊎ Mode m)
mode_error_iff m =
    let (to, from) = mode_error-none_iff (defaulted m) in
    elim (defaulted_cases m) [
      | inl (p, q) ↦ (λ e. inl p, λ h. from (inl q))
      | inr (n, q) ↦ (
        λ e. inr (subst Mode q (to e)),
        elim [ inl p ↦ absurd (n p) | inr h ↦ from (subst Mode (sym q) h) ],
      )
    ]

validate_cases :
    (c : Config)
    → ((validate c).0 ≡ none)
      ↔ ((missing_field c.smtp ≡ none) × (mode_error (defaulted c.smtp.tls) ≡ none))
unfolding validate
validate_cases c = ground arith

-- A configuration is accepted exactly when it has a host, a port other than 0, a sender, a
-- recipient, and no mode or one of the three.
pub validate_iff :
    (c : Config)
    → ((validate c).0 ≡ none) ↔ (
        (c.smtp.host ≢ "")
        × (c.smtp.port ≢ pos 0)
        × (c.smtp.from_address ≢ "")
        × (c.smtp.to ≢ [])
        × ((c.smtp.tls ≡ "") ⊎ Mode c.smtp.tls))
validate_iff c =
    let (to, from) = validate_cases c in
    let (field, field') = missing_field_iff c.smtp in
    let (mode, mode') = mode_error_iff c.smtp.tls in
    (
      λ e. let (p, q) = to e in let (a, b, d, f) = field p in (a, b, d, f, mode q),
      λ (a, b, d, f, m). from (field' (a, b, d, f), mode' m),
    )

-- A mode that was accepted is not empty, so it is its own default.
defaulted-defaulted : (m : String) → defaulted (defaulted m) ≡ defaulted m
defaulted-defaulted m = ground (arith, eq_iff m "")

validate_complete :
    (d : Config)
    → missing_field d.smtp ≡ none
    → validate d ≡ (mode_error (defaulted d.smtp.tls), with_mode d)
unfolding validate
validate_complete d h = ground arith

with_mode_complete : (c : Config) → missing_field (with_mode c).smtp ≡ missing_field c.smtp
unfolding missing_field
with_mode_complete c = refl

again :
    (c : Config)
    → missing_field c.smtp ≡ none
    → mode_error (defaulted c.smtp.tls) ≡ none
    → validate (with_mode c) ≡ (none, with_mode c)
again c m e =
    let same = defaulted-defaulted c.smtp.tls in
    let twice : with_mode (with_mode c) ≡ with_mode c =
      ap (λ (t : String). record c { smtp = record c.smtp { tls = t } }) same in
    validate_complete (with_mode c) (with_mode_complete c ∙ m)
    ∙ (λ i. ((ap mode_error same ∙ e) i, twice i))

-- An accepted configuration has one of the three modes, and it is accepted again, unchanged.
pub validate-validate :
    (c c' : Config) → validate c ≡ (none, c') → Mode c'.smtp.tls × (validate c' ≡ (none, c'))
unfolding validate
validate-validate c c' e = elim (Option-cases (missing_field c.smtp)) [
  | inl m ↦
      let found : with_mode c ≡ c' = ground arith in
      let fine : mode_error (defaulted c.smtp.tls) ≡ none = ground arith in
      let mode = (mode_error-none_iff (defaulted c.smtp.tls)).0 fine in
      subst (λ d. Mode d.smtp.tls × (validate d ≡ (none, d))) found (mode, again c m fine)
  | inr (x, s) ↦ cc
]
