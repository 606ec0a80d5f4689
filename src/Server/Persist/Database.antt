-- ===== src/Server/Persist/Database.antt =====
-- internal/store as the store of internal/server.
pub mod Kept
pub mod Valid
pub mod Rescan
pub mod Tables
pub mod Drift
pub mod Counts
pub mod Recorded
use hsm_doctor.Base.{ℕ, Option, none, some, arith}
use hsm_doctor.Base.Fallible.{Fallible, done, failed}
use hsm_doctor.Store
use hsm_doctor.Store.{Db}
use hsm_doctor.Store.Events
use hsm_doctor.Store.Notified.{db_mark}
use hsm_doctor.Server.Records.{Queries}

-- A query without a row to refer to fails.
abbrev stored : Option ℕ → Fallible ℕ
stored none = failed "FOREIGN KEY constraint failed"
stored (some id) = done id

-- The database of internal/store as the server's store.
unfoldable pub db_queries : Queries Db
db_queries = record {
  upsert_hsm = λ now h db. let (id, db') = Store.upsert_hsm now h db in (done id, db');
  list_hsms = λ db. done (Events.list_hsms db);
  latest_scan = λ id db. done (Store.latest_scan id db);
  insert_scan = λ rec db. let (id, db') = Store.insert_scan rec db in (stored id, db');
  insert_drift_event = λ e db. let (id, db') = Events.insert_drift_event e db in (stored id, db');
  insert_regression_event =
      λ e db. let (id, db') = Events.insert_regression_event e db in (stored id, db');
  mark_notified = db_mark;
}
