-- ===== src/Trace/Calls/Logins.antt =====
-- internal/trace/analyze.go: logins that are missing or late.
use hsm_doctor.Base.{
  String, ◌≡◌, ◌≢◌, ◌↔◌, ◌⊎◌, inl, inr, Bool, true, false, List, [], ◌∷◌, ◌++◌, ◌||◌, arith, All,
  Elem, Elem-append_iff, eq_iff,
}
use hsm_doctor.Base.Text.{◌+++◌}
use hsm_doctor.Trace.Event.{Event}
use hsm_doctor.Trace.Report.{Finding, error, info, one_of}
use hsm_doctor.Trace.Calls.{
  login_requiring, login_finding, logs_in, login_loop, check_login_ordering,
}

abbrev pub not_logged_in : Event → Finding
not_logged_in e = record {
  check = "login-ordering";
  severity = error;
  message = e.function +++ " failed with CKR_USER_NOT_LOGGED_IN";
  seqs = e.seq ∷ [];
}

abbrev pub before_login : Event → Finding
before_login e = record {
  check = "login-ordering";
  severity = info;
  message = e.function +++ " succeeded before any C_Login (public session?)";
  seqs = e.seq ∷ [];
}

-- A successful C_Login.
abbrev pub LogsIn : Event → Type 0
LogsIn e = (e.function ≡ "C_Login") × (e.rv ≡ 0)

-- What is reported of an event, given the events before it.
abbrev pub IsLoginIssue : Finding → List Event → Event → Type 0
IsLoginIssue g earlier e =
    (e.rv_name ≡ "CKR_USER_NOT_LOGGED_IN") × (g ≡ not_logged_in e)
    ⊎ (e.rv_name ≢ "CKR_USER_NOT_LOGGED_IN")
      × Elem e.function login_requiring
      × (e.rv ≡ 0)
      × All (λ x. ¬ (LogsIn x)) (earlier ++ e ∷ [])
      × (g ≡ before_login e)

abbrev any_login : List Event → Bool
any_login [] = false
any_login (e ∷ es) = logs_in e || any_login es

any_login-snoc :
    (es : List Event) (e : Event) → any_login (es ++ e ∷ []) ≡ (any_login es || logs_in e)
any_login-snoc [] e = ground arith
any_login-snoc (x ∷ es) e = ground (arith, any_login-snoc es e)

logs_in_none : (e : Event) → (logs_in e ≡ false) ↔ (¬ (LogsIn e))
logs_in_none e = ground (arith, eq_iff e.function "C_Login")

any_login_none : (es : List Event) → (any_login es ≡ false) ↔ All (λ x. ¬ (LogsIn x)) es
any_login_none [] = ground arith
any_login_none (e ∷ es) = ground (arith, logs_in_none e, any_login_none es)

one_of-Elem_iff :
    (names : List String) (name : String) → (one_of names name ≡ true) ↔ Elem name names
one_of-Elem_iff [] name = (λ h. cc, λ n. absurd n)
one_of-Elem_iff (x ∷ xs) name = ground (arith, eq_iff x name, one_of-Elem_iff xs name)

login_finding_iff :
    (g : Finding) (earlier : List Event) (e : Event)
    → Elem g (login_finding (any_login (earlier ++ e ∷ [])) e) ↔ IsLoginIssue g earlier e
unfolding login_finding
login_finding_iff g earlier e = ground (
  arith,
  any_login_none (earlier ++ e ∷ []),
  one_of-Elem_iff login_requiring e.function,
  eq_iff e.rv_name "CKR_USER_NOT_LOGGED_IN",
)

-- Some event of the trace has an issue, with the events before it.
abbrev pub SomeLoginIssue : Finding → List Event → List Event → Type 0
SomeLoginIssue g earlier [] = ⊥
SomeLoginIssue g earlier (e ∷ es) =
    IsLoginIssue g earlier e ⊎ SomeLoginIssue g (earlier ++ e ∷ []) es

login_loop-Elem_iff :
    (g : Finding) (earlier es : List Event)
    → Elem g (login_loop (any_login earlier) es) ↔ SomeLoginIssue g earlier es
unfolding login_loop
login_loop-Elem_iff g earlier [] = (λ n. n, λ n. n)
login_loop-Elem_iff g earlier (e ∷ es) = rw (← any_login-snoc earlier e) (
    let (to, from) = login_finding_iff g earlier e in
    let (to', from') = login_loop-Elem_iff g (earlier ++ e ∷ []) es in
    let (split, join) = Elem-append_iff g _ _ in
    (
      λ m. elim (split m) [ inl h ↦ inl (to h) | inr h ↦ inr (to' h) ],
      elim [ inl h ↦ join (inl (from h)) | inr h ↦ join (inr (from' h)) ],
    ))

-- Exactly these are reported: each call that failed with CKR_USER_NOT_LOGGED_IN, as an error, and
-- each successful call of a function on the list of those that need a login, as a hint, where neither
-- it nor any earlier event is a C_Login that returned 0.
pub check_login_ordering_iff :
    (es : List Event) (g : Finding) → Elem g (check_login_ordering es) ↔ SomeLoginIssue g [] es
unfolding check_login_ordering
check_login_ordering_iff es g = login_loop-Elem_iff g [] es
