-- ===== src/Examples/Calls.antt =====
-- internal/trace: the theorems at a trace with a session that is never closed.
use hsm_doctor.Base.{
  ℕ, String, ◌≡◌, ◌≢◌, All, refl, ◌↔◌, none, some, List, [], ◌∷◌, Any, Elem, inl, inr, total, tally,
  arith,
}
use hsm_doctor.Trace.Event.{Event}
use hsm_doctor.Trace.Report.{Finding, FuncStat}
use hsm_doctor.Trace.Sessions.{
  closed_all, leak, check_session_leaks, operation_pairs, check_operation_pairs,
}
use hsm_doctor.Trace.Calls.{check_login_ordering, function_stats, add_call}
use hsm_doctor.Trace.Sessions.Leaks.{
  StaysOpen, IsDangling, check_session_leaks-Elem_iff, check_operation_pairs_iff,
}
use hsm_doctor.Trace.Calls.Logins.{SomeLoginIssue, check_login_ordering_iff}
use hsm_doctor.Trace.Calls.Errors.{failure_finding}
use hsm_doctor.Trace.Calls.Stats.{stat_of, function_stats_iff}
use hsm_doctor.Base.{map}
use hsm_doctor.Base.Dict.{lookup, insert}
use hsm_doctor.Base.Sort.{sort_by, insert_by}
use hsm_doctor.Trace.Keys.{
  loop, step, bind, bound, attribute, add_use, usage_of, usage_before, KeyRef, key_usage_of,
}
use hsm_doctor.Trace.Keys.Usage.{is_use, key_usage_of-total}
use hsm_doctor.Examples.Fixtures.{call, trace}

-- A session that is opened after C_CloseAllSessions.
abbrev closed_trace : List Event
closed_trace = call 1 "C_CloseAllSessions" none none ∷ call 2 "C_OpenSession" (some 7) none ∷ []

session-StaysOpen : StaysOpen 7 2 closed_trace
session-StaysOpen = inr (inl ((refl, refl, refl, refl), tt))

check_session_leaks-Elem_iff_example : Elem (leak 2) (check_session_leaks closed_trace) ↔ (
    All (λ e. e.function ≢ "C_CloseAllSessions") closed_trace
    × ((seq : ℕ) × (leak 2 ≡ leak seq) × ((k : ℕ) × StaysOpen k seq closed_trace)))
check_session_leaks-Elem_iff_example = check_session_leaks-Elem_iff closed_trace (leak 2)

check_operation_pairs_iff_example :
    Elem (leak 7) (check_operation_pairs trace) ↔ Any (IsDangling trace (leak 7)) operation_pairs
check_operation_pairs_iff_example = check_operation_pairs_iff trace (leak 7)

check_login_ordering_iff_example :
    Elem (leak 3) (check_login_ordering trace) ↔ SomeLoginIssue (leak 3) [] trace
check_login_ordering_iff_example = check_login_ordering_iff trace (leak 3)

abbrev failed_login : Finding
failed_login = failure_finding "CKR_USER_NOT_LOGGED_IN" trace

abbrev signing : FuncStat
signing = stat_of "C_SignInit" trace

signing_is_listed : Elem signing (function_stats trace)
unfolding add_call
signing_is_listed = (function_stats_iff trace signing).1 (ground arith, refl)

key_usage_of-total_example :
    total (λ k. k.total_calls) (key_usage_of trace).keys ≡ tally is_use trace
key_usage_of-total_example = key_usage_of-total trace

two_uses : tally is_use trace ≡ 2
two_uses = refl

abbrev web : KeyRef
web = record { class = "private-key"; label = "web"; key_id = "01" }

abbrev candidates : List KeyRef
candidates = web ∷ record web { label = "api"; key_id = "09" } ∷ []

no_leak_after_close_all : check_session_leaks closed_trace ≡ []
unfolding check_session_leaks closed_all
no_leak_after_close_all = refl

one_resolved_one_not :
    map {B = String × ℕ} (λ k. (k.label, k.total_calls)) (key_usage_of trace).keys
    ≡ ("web", 1) ∷ ("", 1) ∷ []
unfolding key_usage_of loop step bind bound attribute add_use usage_of usage_before sort_by
    insert_by lookup insert
one_resolved_one_not = refl
