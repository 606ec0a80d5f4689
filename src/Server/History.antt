-- ===== src/Server/History.antt =====
-- internal/server/history.go, internal/server/sharedkeys.go: the handlers that read the history. A
-- request gives the segments of its path and its `limit`; the store may fail at each query.
pub mod Answers
use Prim.Native.String
use Prim.Native.String.{String}
use Prim.Native.Char.{Char, code}
use hsm_doctor.Base.{
  ℕ, zero, suc, ◌^◌, Bool, true, false, Option, none, some, List, [], ◌==◌, eqb, ltb, leb,
  if◌then◌else◌,
}
use hsm_doctor.Base.Int.{ℤ, pos, negsuc, leb_ℤ, pos_part}
use hsm_doctor.Base.Fallible.{Fallible, done, failed}
use hsm_doctor.Base.Text.Parts.{digits_value}
use hsm_doctor.Store.{Hsm, ScanRecord, DriftEvent, RegressionEvent}
use hsm_doctor.Store.Events.{HsmSummary}

abbrev negated : ℕ → ℤ
negated zero = pos 0
negated (suc n) = negsuc n

-- A sign, the digits, and the bounds of 64 bits.
abbrev signed_value : Bool → Option ℕ → Option ℤ
signed_value negative none = none
signed_value false (some n) = if ltb n (2 ^ 63) then some (pos n) else none
signed_value true (some n) = if leb n (2 ^ 63) then some (negated n) else none

abbrev some_digits : String → Option ℕ
some_digits s = if s == "" then none else digits_value 0 s

-- `strconv.ParseInt(s, 10, 64)` and `strconv.Atoi(s)`
unfoldable pub parse_int : String → Option ℤ
parse_int String.[] = none
parse_int (String.◌∷◌ c s) =
    if eqb (code c) b'-'
    then signed_value true (some_digits s)
    else if eqb (code c) b'+'
    then signed_value false (some_digits s)
    else signed_value false (some_digits (String.◌∷◌ c s))

unfoldable pub id_from_path : String → Option ℕ
id_from_path raw = elim (parse_int raw) [
  | none ↦ none
  | some id ↦ if leb_ℤ id (pos 0) then none else some (pos_part id)
]

unfoldable pub limit_from_query : String → ℤ
limit_from_query v = if v == "" then pos 100 else elim (parse_int v) [ none ↦ pos 100 | some n ↦ n ]

-- A value with status 200, or an error with another.
pub data Reply (A : Type 0) : Type 0 where
  ok : A → Reply A
  error : ℕ → Reply A

abbrev or_error : {A : Type 0} → Fallible A → Reply A
or_error (done a) = ok a
or_error (failed e) = error 500

abbrev found : {A : Type 0} → Fallible (Option A) → Reply A
found (done (some a)) = ok a
found (done none) = error 404
found (failed e) = error 500

-- The queries of `store.Store` that the history needs.
pub record Reading (S : Type 0) : Type 0 where
  pub list_hsms : S → Fallible (List HsmSummary)
  pub get_hsm : ℕ → S → Fallible (Option Hsm)
  pub list_scans : ℕ → ℤ → S → Fallible (List ScanRecord)
  pub get_scan : ℕ → ℕ → S → Fallible (Option ScanRecord)
  pub list_drift_events : ℕ → ℤ → S → Fallible (List DriftEvent)
  pub list_regression_events : ℕ → ℤ → S → Fallible (List RegressionEvent)

module _ {S : Type 0} (q : Reading S) where
  -- `requireStore`: without persistence the answer is 503.
  unfoldable pub with_store : {A : Type 0} → (S → Reply A) → Option S → Reply A
  with_store k none = error 503
  with_store k (some s) = k s

  unfoldable pub with_id : {A : Type 0} → String → (ℕ → Reply A) → Reply A
  with_id raw k = elim (id_from_path raw) [ none ↦ error 400 | some id ↦ k id ]

  unfoldable pub handle_hsms : Option S → Reply (List HsmSummary)
  handle_hsms = with_store (λ s. or_error (q.list_hsms s))

  unfoldable pub handle_hsm : String → Option S → Reply Hsm
  handle_hsm id = with_store (λ s. with_id id (λ n. found (q.get_hsm n s)))

  unfoldable pub handle_hsm_scans : String → String → Option S → Reply (List ScanRecord)
  handle_hsm_scans id limit =
      with_store (λ s. with_id id (λ n. or_error (q.list_scans n (limit_from_query limit) s)))

  unfoldable pub handle_hsm_scan : String → String → Option S → Reply ScanRecord
  handle_hsm_scan id scan_id =
      with_store (λ s. with_id id (λ n. with_id scan_id (λ m. found (q.get_scan n m s))))

  unfoldable pub handle_hsm_drift : String → String → Option S → Reply (List DriftEvent)
  handle_hsm_drift id limit =
      with_store
        (λ s. with_id id (λ n. or_error (q.list_drift_events n (limit_from_query limit) s)))

  unfoldable pub handle_hsm_regressions : String → String → Option S → Reply (List RegressionEvent)
  handle_hsm_regressions id limit =
      with_store
        (λ s. with_id id (λ n. or_error (q.list_regression_events n (limit_from_query limit) s)))
