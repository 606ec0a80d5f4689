-- ===== src/Examples/Service.antt =====
-- internal/server: the theorems at small requests and scans.
use hsm_doctor.Base.{
  ℕ, String, ◌≡◌, refl, ◌⊎◌, true, Option, none, some, [], ◌∷◌, ◌++◌, eqb, if◌then◌else◌,
}
use hsm_doctor.Base.Int.{pos, ltb_ℤ}
use hsm_doctor.Base.Sort.{sort_by, insert_by}
use hsm_doctor.Base.Fallible.{Fallible, done}
use hsm_doctor.Base.Text.Parts.{cut_at, cut_prefix}
use hsm_doctor.Store.{Db, empty_db, latest_scan, newest_scans, ScanRecord}
use hsm_doctor.Server.Auth.{AuthConfig, Request, caller_role, authorize, role_for, role_after}
use hsm_doctor.Server.Auth.Granting.{Speaks, Allows, authorize-safe}
use hsm_doctor.Server.Session.{
  Session, sign, unsign, unsign-sign, session_from_request, session_from_request-safe,
}
use hsm_doctor.Server.Records.{Report, Json, State, scan_of}
use hsm_doctor.Server.Persist.{store_scan, persist_scan}
use hsm_doctor.Server.Persist.Database.{db_queries}
use hsm_doctor.Server.Persist.Database.Recorded.{Recorded, persist_scan-Recorded}
use hsm_doctor.Server.Persist.Database.Rescan.{Quiet, store_scan-unchanged}
use hsm_doctor.Server.Ingest.{Enrollment, handle_enroll, handle_ingest_report}
use hsm_doctor.Server.Ingest.Agents.{
  agent_queries, Accepted, Rejected, Admitted, handle_ingest_report-safe, handle_enroll-safe,
}
use hsm_doctor.Server.Webhook.{deliver, Delivered, deliver_cases}
use hsm_doctor.Server.History.{handle_hsm_scan}
use hsm_doctor.Server.History.Answers.{db_reading, Answered, handle_hsm_scan_cases}
use hsm_doctor.Examples.Fixtures.{fmt, inv, token}
use hsm_doctor.Examples.Fleet.{box, scan_at, db_scan, db_scan-IsValid}

abbrev plain : String → String
plain s = s

abbrev auth_config : AuthConfig
auth_config = record {
  tokens =
      record { name = "ci"; token = "0123456789abcdef"; role = "viewer" }
      ∷ record { name = "ops"; token = "fedcba9876543210"; role = "admin" }
      ∷ [];
  oidc = none;
}

abbrev scan_request : Request
scan_request = record {
  path = "/api/v1/slots/1/scan";
  method = "POST";
  authorization = "Bearer fedcba9876543210";
}

authorize-safe_example :
    (role : String) × Speaks plain auth_config none scan_request role × Allows role "POST"
unfolding authorize caller_role role_for role_after cut_prefix
authorize-safe_example = authorize-safe plain auth_config none scan_request refl refl refl

abbrev seal : String → String
seal s = "mac"

abbrev login : Session
login = record { subject = "ann"; role = "viewer"; expiry = pos 100 }

abbrev read_login : String → Option Session
read_login s = some login

unsign-sign_example : unsign plain some seal (sign plain some seal "ann") ≡ some "ann"
unfolding cut_at
unsign-sign_example = unsign-sign plain some seal "ann" refl refl refl

session_from_request-safe_example :
    (ltb_ℤ (pos 7) login.expiry ≡ true)
    × (c : String) × (value : String) × (m : String) × (raw : String) × (some "ann.mac" ≡ some c)
    × (cut_at b'.' c ≡ some (value, m))
    × (some value ≡ some raw)
    × (some m ≡ some (seal raw))
    × (read_login raw ≡ some login)
unfolding session_from_request unsign cut_at
session_from_request-safe_example =
    session_from_request-safe plain some seal read_login (pos 7) (some "ann.mac") login refl

abbrev report : Report
report = record {
  inventory = some inv;
  score = pos 90;
  counts = record { private_keys = 1; public_keys = 0; secret_keys = 0; certificates = 1 };
  findings = [];
}

abbrev json : Json
json = record {
  encode_report = λ r. done "{}";
  decode_report = λ s. done report;
  encode_diff = λ d. done "diff";
  encode_regression = λ r. done "regression";
}

abbrev state_of : Db → State Db
state_of db = record {
  db = db;
  notifier = none;
  posts = [];
  mails = [];
  regressions = 0;
  shared_private_keys = 0;
}

persist_scan-Recorded_example :
    Recorded json fmt true
      (pos 7)
      inv
      token
      "local"
      report
      "{}"
      db_scan
      (persist_scan db_queries json fmt true (pos 7) report "local" (state_of db_scan)).db
persist_scan-Recorded_example =
    persist_scan-Recorded json fmt true (pos 7) report "local" (state_of db_scan) inv token "{}"
      db_scan-IsValid refl refl (λ e. cc) refl

abbrev first_scan : ScanRecord
first_scan = record (scan_at 10) { id = 1 }

abbrev scanned_db : Db
scanned_db = record empty_db {
  hsms = record box { id = 1 } ∷ [];
  scans = first_scan ∷ [];
  next_hsm = 2;
  next_scan = 2;
}

store_scan-unchanged_example :
    let st' =
      store_scan db_queries json fmt true
        (pos 7)
        1
        inv
        token
        "local"
        report
        (state_of scanned_db) in
    (st'.db.scans
      ≡ scanned_db.scans ++ record (scan_of 1 inv report "{}") { id = scanned_db.next_scan } ∷ [])
    × Quiet (state_of scanned_db) st'
unfolding latest_scan newest_scans sort_by insert_by
store_scan-unchanged_example =
    store_scan-unchanged json fmt true (pos 7) 1 inv token "local" report (state_of scanned_db)
      first_scan report "{}" refl refl refl refl refl refl refl

abbrev agent_db : Db
agent_db = record scanned_db {
  agents =
      record {
        id = 1;
        name = "edge";
        token_hash = "agent-token";
        created_at = pos 1;
        last_seen = pos 1;
      }
      ∷ [];
  next_agent = 2;
}

abbrev persist : Report → String → State Db → State Db
persist = persist_scan db_queries json fmt true (pos 7)

handle_ingest_report-safe_example :
    let (r, st') =
      handle_ingest_report agent_queries plain persist
        (pos 9)
        "Bearer agent-token"
        (done report)
        (some (state_of agent_db)) in
    Accepted plain persist (pos 9) "Bearer agent-token" (done report) (state_of agent_db) r st'
    ⊎ Rejected (state_of agent_db) r st'
handle_ingest_report-safe_example =
    handle_ingest_report-safe plain persist (pos 9) "Bearer agent-token" (done report)
      (state_of agent_db)

abbrev enrollment : Fallible Enrollment
enrollment = done (record { name = "edge"; enroll_token = "secret" })

handle_enroll-safe_example :
    let (r, st') =
      handle_enroll agent_queries plain
        (pos 9)
        "secret"
        (done "fresh")
        enrollment
        (some (state_of empty_db)) in
    Admitted plain (pos 9) "secret" (done "fresh") enrollment (state_of empty_db) r st'
    ⊎ Rejected (state_of empty_db) r st'
handle_enroll-safe_example =
    handle_enroll-safe plain (pos 9) "secret" (done "fresh") enrollment (state_of empty_db)

abbrev slow_endpoint : ℕ → Option ℕ
slow_endpoint n = if eqb n 1 then none else some 200

deliver_cases_example :
    let (posts, sent) = deliver true slow_endpoint in Delivered true slow_endpoint posts sent
deliver_cases_example = deliver_cases true slow_endpoint

handle_hsm_scan_cases_example :
    Answered "1" "1" scanned_db (handle_hsm_scan db_reading "1" "1" (some scanned_db))
handle_hsm_scan_cases_example = handle_hsm_scan_cases "1" "1" scanned_db
