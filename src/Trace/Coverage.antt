-- ===== src/Trace/Coverage.antt =====
-- internal/trace/coverage.go: the functions of PKCS#11 that a trace exercised. The percentage is a
-- floating-point number, and left out.
pub mod Partition
use hsm_doctor.Base.{
  ℕ, ◌+◌, String, Bool, not, List, [], ◌∷◌, ◌==◌, eqb, if◌then◌else◌, any, keep, length,
}
use hsm_doctor.Base.Sort.{sort_by}
use hsm_doctor.Base.Text.{str_lt}
use hsm_doctor.Base.Dict.{Dict, keys, lookup, insert, or_zero, string_eq}
use hsm_doctor.Trace.Event.{Event}

abbrev pub recordable_functions : List String
recordable_functions =
    "C_Initialize" ∷ "C_Finalize" ∷ "C_GetInfo" ∷ "C_GetSlotList" ∷ "C_GetSlotInfo"
    ∷ "C_GetTokenInfo" ∷ "C_GetMechanismList" ∷ "C_GetMechanismInfo" ∷ "C_OpenSession"
    ∷ "C_CloseSession" ∷ "C_CloseAllSessions" ∷ "C_GetSessionInfo" ∷ "C_Login" ∷ "C_Logout"
    ∷ "C_FindObjectsInit" ∷ "C_FindObjects" ∷ "C_FindObjectsFinal" ∷ "C_GetAttributeValue"
    ∷ "C_EncryptInit" ∷ "C_Encrypt" ∷ "C_DecryptInit" ∷ "C_Decrypt" ∷ "C_DigestInit" ∷ "C_SignInit"
    ∷ "C_Sign" ∷ "C_VerifyInit" ∷ "C_Verify" ∷ "C_GenerateKey" ∷ "C_GenerateKeyPair" ∷ "C_WrapKey"
    ∷ "C_UnwrapKey" ∷ "C_GenerateRandom" ∷ []

pub record FuncCoverage : Type 0 where
  pub function : String
  pub calls : ℕ

pub record Coverage : Type 0 where
  pub total : ℕ
  pub covered : ℕ
  pub exercise : List FuncCoverage
  pub missing : List String
  pub unexpected : List String

-- The loop over the events, on the map `counts`.
unfoldable pub count_calls : Dict String ℕ → List Event → Dict String ℕ
count_calls m [] = m
count_calls m (e ∷ es) =
    count_calls
      (if e.function == "" then m else insert e.function (or_zero 0 (lookup e.function m) + 1) m) es

unfoldable pub exercised : Dict String ℕ → List String → List FuncCoverage
exercised m [] = []
exercised m (fn ∷ rest) =
    let n = or_zero 0 (lookup fn m) in
    let later = exercised m rest in
    if eqb n 0 then later else record { function = fn; calls = n } ∷ later

unfoldable pub never_called : Dict String ℕ → List String → List String
never_called m fns = keep (λ fn. eqb (or_zero 0 (lookup fn m)) 0) fns

abbrev pub is_recordable : String → Bool
is_recordable fn = any (λ f. f == fn) recordable_functions

abbrev pub by_function : FuncCoverage → FuncCoverage → Bool
by_function a b = str_lt a.function b.function

unfoldable pub coverage_of : List Event → Coverage
coverage_of events =
    let m = count_calls [] events in
    let e = sort_by by_function (exercised m recordable_functions) in
    record {
      total = length recordable_functions;
      covered = length e;
      exercise = e;
      missing = sort_by str_lt (never_called m recordable_functions);
      unexpected = sort_by str_lt (keep (λ fn. not (is_recordable fn)) (keys m));
    }
