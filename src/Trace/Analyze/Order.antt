-- ===== src/Trace/Analyze/Order.antt =====
-- internal/trace/analyze.go: `Analyze` puts the findings of its detectors together.
use hsm_doctor.Base.{ℕ, ◌≡◌, List, arith, eqb, keep}
use hsm_doctor.Base.Sort.{IsSorted, by_rank-IsOrder, sort_by-IsSorted, sort_by-keep}
use hsm_doctor.Base.Clock.{Format}
use hsm_doctor.Trace.Event.{Event}
use hsm_doctor.Trace.Report.{sev_rank}
use hsm_doctor.Trace.Analyze.{more_severe, all_findings, analyze}

-- The analysis lists the findings of the six detectors from the most to the least severe; those of
-- one severity stand in the order of the detectors, and within a detector in its own order.
pub analyze_stable :
    (fmt : Format) (es : List Event)
    → IsSorted more_severe (analyze fmt es).findings
      × ((rank : ℕ)
          → keep (λ f. eqb (sev_rank f.severity) rank) (analyze fmt es).findings
            ≡ keep (λ f. eqb (sev_rank f.severity) rank) (all_findings fmt es))
unfolding analyze
analyze_stable fmt es = (
  sort_by-IsSorted (by_rank-IsOrder _) (all_findings fmt es),
  λ rank.
      sort_by-keep (by_rank-IsOrder _) (λ f. eqb (sev_rank f.severity) rank)
        (λ a b h k. ground arith) (all_findings fmt es),
)
