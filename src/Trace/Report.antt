-- ===== src/Trace/Report.antt =====
-- internal/trace/analyze.go: the findings and the statistics of an analysis.
use hsm_doctor.Base.{ℕ, String, Bool, false, List, [], ◌∷◌, ◌||◌, ◌==◌}
use hsm_doctor.Base.Int.{ℤ}
use hsm_doctor.Base.Dict.{nat_eq, string_eq}

pub data Severity : Type 0 where
  error warning info : Severity

pub record Finding : Type 0 where
  pub check : String
  pub severity : Severity
  pub message : String
  pub seqs : List ℕ

pub record FuncStat : Type 0 where
  pub function : String
  pub calls : ℕ
  pub errors : ℕ
  pub total_ns : ℤ
  pub max_ns : ℤ

pub record Analysis : Type 0 where
  pub events : ℕ
  pub findings : List Finding
  pub stats : List FuncStat

unfoldable pub sev_rank : Severity → ℕ
sev_rank error = 0
sev_rank warning = 1
sev_rank info = 2

abbrev pub one_of : List String → String → Bool
one_of [] name = false
one_of (x ∷ xs) name = x == name || one_of xs name
