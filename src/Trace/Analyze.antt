-- ===== src/Trace/Analyze.antt =====
-- internal/trace/analyze.go, `Analyze`: all detectors, and the order of their findings.
pub mod Order
use hsm_doctor.Base.{Bool, List, ◌++◌, length}
use hsm_doctor.Base.Sort.{sort_by, by_rank}
use hsm_doctor.Base.Dict.{nat_eq, string_eq}
use hsm_doctor.Base.Clock.{Format}
use hsm_doctor.Trace.Event.{Event}
use hsm_doctor.Trace.Report.{Finding, Analysis, sev_rank}
use hsm_doctor.Trace.Sessions.{check_initialize, check_session_leaks, check_operation_pairs}
use hsm_doctor.Trace.Calls.{check_login_ordering, check_errors, check_slow_calls, function_stats}

unfoldable pub all_findings : Format → List Event → List Finding
all_findings fmt es =
    check_initialize es
    ++ (check_session_leaks es
        ++ (check_operation_pairs es
            ++ (check_login_ordering es ++ (check_errors es ++ check_slow_calls fmt es))))

abbrev pub more_severe : Finding → Finding → Bool
more_severe = by_rank (λ f. sev_rank f.severity)

unfoldable pub analyze : Format → List Event → Analysis
analyze fmt es = record {
  events = length es;
  findings = sort_by more_severe (all_findings fmt es);
  stats = function_stats es;
}
