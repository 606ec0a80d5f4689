-- ===== src/Trace/Sessions.antt =====
-- internal/trace/analyze.go: the detectors for initialisation, open sessions and pairs of calls. A
-- loop that iterates over a map and sorts what it gets is modelled on the map's entries in the order
-- of insertion.
pub mod Leaks
use hsm_doctor.Base.{
  ℕ, ◌+◌, String, Bool, true, false, not, none, some, List, [], ◌∷◌, ◌++◌, ◌&&◌, ◌==◌, eqb, ltb,
  if◌then◌else◌, map, length,
}
use hsm_doctor.Base.Sort.{sort_by, by_rank}
use hsm_doctor.Base.Dict.{nat_eq, string_eq, values}
use hsm_doctor.Base.Text.{◌+++◌, join}
use hsm_doctor.Trace.Event.{Event, is_ok, session_or_zero}
use hsm_doctor.Trace.Effects.{Effect, put, drop_key, reset, leave, run}
use hsm_doctor.Trace.Report.{Finding, one_of, error, warning}

-- The variables of `checkInitialize`.
pub record InitState : Type 0 where
  pub init : ℕ
  pub final : ℕ
  pub first_non_init_seq : ℕ
  pub saw_init : Bool

pub init_step : InitState → Event → InitState
init_step s e =
    if e.function == "C_Initialize"
    then record s { init = s.init + 1; saw_init = true }
    else if e.function == "C_Finalize"
    then record s { final = s.final + 1 }
    else if not s.saw_init && eqb s.first_non_init_seq 0
    then record s { first_non_init_seq = e.seq }
    else s

pub init_loop : InitState → List Event → InitState
init_loop s [] = s
init_loop s (e ∷ es) = init_loop (init_step s e) es

abbrev pub init_start : InitState
init_start = record { init = 0; final = 0; first_non_init_seq = 0; saw_init = false }

unfoldable pub check_initialize : List Event → List Finding
check_initialize es =
    let s = init_loop init_start es in
    (if eqb s.init 0 && ltb 0 (length es)
      then record {
        check = "initialize";
        severity = error;
        message = "trace contains PKCS#11 calls but no C_Initialize";
        seqs = s.first_non_init_seq ∷ [];
      }
        ∷ []
      else [])
    ++ (if ltb 0 s.init && eqb s.final 0
        then record {
          check = "initialize";
          severity = warning;
          message = "C_Initialize was never matched by C_Finalize (library not cleanly shut down)";
          seqs = [];
        }
          ∷ []
        else [])

-- `sort.Slice` of sequence numbers
abbrev pub ascending : ℕ → ℕ → Bool
ascending = by_rank (λ n. n)

-- What an event does to the map of open sessions.
unfoldable pub session_effect : Event → Effect
session_effect e =
    if e.function == "C_OpenSession"
    then if is_ok e then elim e.session [ none ↦ leave | some s ↦ put s e.seq ] else leave
    else if e.function == "C_CloseSession"
    then elim e.session [ none ↦ leave | some s ↦ drop_key s ]
    else if e.function == "C_CloseAllSessions"
    then reset
    else leave

-- The variable `closedAll`.
unfoldable pub closed_all : List Event → Bool
closed_all [] = false
closed_all (e ∷ es) = if e.function == "C_CloseAllSessions" then true else closed_all es

abbrev pub leak : ℕ → Finding
leak seq = record {
  check = "session-leak";
  severity = warning;
  message = "session opened but never closed";
  seqs = seq ∷ [];
}

unfoldable pub check_session_leaks : List Event → List Finding
check_session_leaks es =
    if closed_all es then [] else map leak (sort_by ascending (values (run session_effect [] es)))

pub record OperationPair : Type 0 where
  pub init_fn : String
  pub ops : List String

abbrev pub operation_pairs : List OperationPair
operation_pairs =
    record { init_fn = "C_FindObjectsInit"; ops = "C_FindObjectsFinal" ∷ [] }
    ∷ record { init_fn = "C_SignInit"; ops = "C_Sign" ∷ "C_SignFinal" ∷ [] }
    ∷ record { init_fn = "C_VerifyInit"; ops = "C_Verify" ∷ "C_VerifyFinal" ∷ [] }
    ∷ record { init_fn = "C_EncryptInit"; ops = "C_Encrypt" ∷ "C_EncryptFinal" ∷ [] }
    ∷ record { init_fn = "C_DecryptInit"; ops = "C_Decrypt" ∷ "C_DecryptFinal" ∷ [] }
    ∷ record { init_fn = "C_DigestInit"; ops = "C_Digest" ∷ "C_DigestFinal" ∷ [] }
    ∷ []

-- What an event does to the map of dangling inits of one pair.
unfoldable pub pair_effect : OperationPair → Event → Effect
pair_effect p e =
    if e.function == p.init_fn && is_ok e
    then put (session_or_zero e) e.seq
    else if one_of p.ops e.function
    then drop_key (session_or_zero e)
    else leave

abbrev pub dangling : OperationPair → ℕ → Finding
dangling p seq = record {
  check = "operation-leak";
  severity = warning;
  message = p.init_fn +++ " not followed by [" +++ join " " p.ops +++ "] on the same session";
  seqs = seq ∷ [];
}

unfoldable pub check_pair : List Event → OperationPair → List Finding
check_pair es p = map (dangling p) (sort_by ascending (values (run (pair_effect p) [] es)))

pub check_pairs : List Event → List OperationPair → List Finding
check_pairs es [] = []
check_pairs es (p ∷ ps) = check_pair es p ++ check_pairs es ps

unfoldable pub check_operation_pairs : List Event → List Finding
check_operation_pairs es = check_pairs es operation_pairs
