-- ===== src/Policy/Severity.antt =====
-- internal/policy/policy.go: severities and scoring. A severity that is none of the five is kept
-- with its text.
use hsm_doctor.Base.{ℕ, String, Bool, true, false, Option, none, some}
use hsm_doctor.Base.Int.{ℤ, pos}

pub data Severity : Type 0 where
  critical high medium low info : Severity
  unknown : String → Severity

-- The map `severityOrder`.
unfoldable pub severity_order : Severity → Option ℕ
severity_order critical = some 0
severity_order high = some 1
severity_order medium = some 2
severity_order low = some 3
severity_order info = some 4
severity_order (unknown s) = none

unfoldable pub valid : Severity → Bool
unfolding severity_order
valid s = elim (severity_order s) [ none ↦ false | some r ↦ true ]

-- A missing key reads as 0, so an unknown severity ranks with the most severe.
unfoldable pub rank : Severity → ℕ
unfolding severity_order
rank s = elim (severity_order s) [ none ↦ 0 | some r ↦ r ]

pub record Scoring : Type 0 where
  pub critical : ℤ
  pub high : ℤ
  pub medium : ℤ
  pub low : ℤ

abbrev pub default_scoring : Scoring
default_scoring = record { critical = pos 25; high = pos 10; medium = pos 5; low = pos 2 }

unfoldable pub penalty : Scoring → Severity → ℤ
penalty s critical = s.critical
penalty s high = s.high
penalty s medium = s.medium
penalty s low = s.low
penalty s _ = pos 0
