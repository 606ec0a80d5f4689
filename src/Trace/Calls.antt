-- ===== src/Trace/Calls.antt =====
-- internal/trace/analyze.go: the detectors for logins, errors and slow calls, and the statistics by
-- function. A loop over a map is modelled on its entries in the order of insertion.
pub mod Logins
pub mod Errors
pub mod Stats
use hsm_doctor.Base.{
  ℕ, ◌+◌, String, Bool, false, not, none, some, List, [], ◌∷◌, ◌++◌, ◌&&◌, ◌||◌, ◌==◌,
  if◌then◌else◌, map,
}
use hsm_doctor.Base.Int.{pos, ◌+ℤ◌, wrap64, ltb_ℤ, leb_ℤ}
use hsm_doctor.Base.Sort.{sort_by, by_rank}
use hsm_doctor.Base.Dict.{Dict, lookup, insert, or_zero, nat_eq, string_eq, keys, values}
use hsm_doctor.Base.Text.{◌+++◌, decimal, str_lt}
use hsm_doctor.Base.Clock.{Format, Duration}
use hsm_doctor.Trace.Event.{Event, duration, is_ok}
use hsm_doctor.Trace.Report.{Finding, FuncStat, one_of, error, warning, info}

abbrev pub login_requiring : List String
login_requiring =
    "C_SignInit" ∷ "C_DecryptInit" ∷ "C_UnwrapKey" ∷ "C_GenerateKey" ∷ "C_GenerateKeyPair" ∷ []

-- One round of `checkLoginOrdering`: what it appends, given `loggedIn` after its first line.
pub login_finding : Bool → Event → List Finding
login_finding logged_in e =
    if e.rv_name == "CKR_USER_NOT_LOGGED_IN"
    then record {
      check = "login-ordering";
      severity = error;
      message = e.function +++ " failed with CKR_USER_NOT_LOGGED_IN";
      seqs = e.seq ∷ [];
    }
      ∷ []
    else if not logged_in && one_of login_requiring e.function && is_ok e
    then record {
      check = "login-ordering";
      severity = info;
      message = e.function +++ " succeeded before any C_Login (public session?)";
      seqs = e.seq ∷ [];
    }
      ∷ []
    else []

abbrev pub logs_in : Event → Bool
logs_in e = e.function == "C_Login" && is_ok e

pub login_loop : Bool → List Event → List Finding
login_loop logged_in [] = []
login_loop logged_in (e ∷ es) =
    let now = logged_in || logs_in e in login_finding now e ++ login_loop now es

unfoldable pub check_login_ordering : List Event → List Finding
check_login_ordering es = login_loop false es

-- The maps `counts` and `firstSeq` of `checkErrors`.
pub record ErrorState : Type 0 where
  pub counts : Dict String ℕ
  pub first_seq : Dict String ℕ

abbrev pub keep_first : String → ℕ → Dict String ℕ → Dict String ℕ
keep_first k v m = elim (lookup k m) [ none ↦ insert k v m | some old ↦ m ]

pub error_step : ErrorState → Event → ErrorState
error_step s e = if is_ok e then s else record {
  counts = insert e.rv_name (or_zero 0 (lookup e.rv_name s.counts) + 1) s.counts;
  first_seq = keep_first e.rv_name e.seq s.first_seq;
}

pub error_loop : ErrorState → List Event → ErrorState
error_loop s [] = s
error_loop s (e ∷ es) = error_loop (error_step s e) es

abbrev pub first_of : ErrorState → String → ℕ
first_of s name = or_zero 0 (lookup name s.first_seq)

abbrev pub is_mechanism_error : String → Bool
is_mechanism_error name = name == "CKR_MECHANISM_PARAM_INVALID" || name == "CKR_MECHANISM_INVALID"

unfoldable pub error_finding : String → ℕ → ℕ → Finding
error_finding name count seq =
    let msg = name +++ " returned " +++ decimal count +++ " time(s)" in
    record {
      check = "errors";
      severity = if is_mechanism_error name then error else warning;
      message =
          if is_mechanism_error name
          then msg
            +++ " — check the mechanism and its parameters against the token's supported list"
          else msg;
      seqs = seq ∷ [];
    }

abbrev pub no_errors : ErrorState
no_errors = record { counts = []; first_seq = [] }

unfoldable pub check_errors : List Event → List Finding
check_errors es =
    let s = error_loop no_errors es in
    map (λ name. error_finding name (or_zero 0 (lookup name s.counts)) (first_of s name))
      (sort_by (by_rank (first_of s)) (keys s.counts))

-- 500 ms
abbrev pub slow_call_threshold : Duration
slow_call_threshold = pos 500000000

abbrev pub is_slow : Event → Bool
is_slow e = leb_ℤ slow_call_threshold (duration e)

unfoldable pub check_slow_calls : Format → List Event → List Finding
check_slow_calls fmt [] = []
check_slow_calls fmt (e ∷ es) =
    let rest = check_slow_calls fmt es in
    if is_slow e
    then record {
      check = "performance";
      severity = info;
      message = e.function +++ " took " +++ fmt.round_ms (duration e);
      seqs = e.seq ∷ [];
    }
      ∷ rest
    else rest

abbrev pub no_calls : String → FuncStat
no_calls f = record { function = f; calls = 0; errors = 0; total_ns = pos 0; max_ns = pos 0 }

-- What one event adds to the statistics of its function.
unfoldable pub add_call : FuncStat → Event → FuncStat
add_call s e = record s {
  calls = s.calls + 1;
  errors = if is_ok e then s.errors else s.errors + 1;
  total_ns = wrap64 (s.total_ns +ℤ e.duration_ns);
  max_ns = if ltb_ℤ s.max_ns e.duration_ns then e.duration_ns else s.max_ns;
}

pub stats_loop : Dict String FuncStat → List Event → Dict String FuncStat
stats_loop m [] = m
stats_loop m (e ∷ es) =
    stats_loop
      (insert e.function (add_call (or_zero (no_calls e.function) (lookup e.function m)) e) m) es

-- Busiest first, then by name.
abbrev pub busier : FuncStat → FuncStat → Bool
busier a b =
    ltb_ℤ b.total_ns a.total_ns || not (ltb_ℤ a.total_ns b.total_ns) && str_lt a.function b.function

unfoldable pub function_stats : List Event → List FuncStat
function_stats es = sort_by busier (values (stats_loop [] es))
