-- ===== src/Store/Valid/Steps.antt =====
-- internal/store: the states that a database reaches, query by query, from the empty one.
use hsm_doctor.Base.{ℕ, String}
use hsm_doctor.Base.Clock.{Time}
use hsm_doctor.Notify.Expiry.{Entry}
use hsm_doctor.Store.{
  Hsm, ScanRecord, DriftEvent, RegressionEvent, Db, empty_db, upsert_hsm, insert_scan,
}
use hsm_doctor.Store.Events.{
  insert_drift_event, insert_regression_event, mark_notified, upsert_agent, touch_agent,
}
use hsm_doctor.Store.Valid.{
  IsValid, empty-IsValid, insert_scan-IsValid, insert_drift_event-IsValid,
  insert_regression_event-IsValid, mark_notified-IsValid,
}
use hsm_doctor.Store.Valid.Agents.{upsert_agent-IsValid, touch_agent-IsValid}
use hsm_doctor.Store.Valid.Hsms.{upsert_hsm-IsValid}

-- The queries that write, in any order and with any arguments.
pub data Step (db : Db) : Db → Type 0 where
  hsm : (now : Time) (h : Hsm) → Step db (upsert_hsm now h db).1
  scan : (rec : ScanRecord) → Step db (insert_scan rec db).1
  drift : (e : DriftEvent) → Step db (insert_drift_event e db).1
  regression : (e : RegressionEvent) → Step db (insert_regression_event e db).1
  notified : (e : Entry) → Step db (mark_notified e db).1
  agent : (now : Time) (name hash : String) → Step db (upsert_agent now name hash db).1
  touch : (now : Time) (id : ℕ) → Step db (touch_agent now id db)

pub data Reach : Db → Type 0 where
  start : Reach empty_db
  next : {db db' : Db} → Reach db → Step db db' → Reach db'

Step-IsValid : {db db' : Db} → Step db db' → IsValid db → IsValid db'
Step-IsValid {db} (hsm now h) v = upsert_hsm-IsValid now h db v
Step-IsValid {db} (scan rec) v = insert_scan-IsValid rec db v
Step-IsValid {db} (drift e) v = insert_drift_event-IsValid e db v
Step-IsValid {db} (regression e) v = insert_regression_event-IsValid e db v
Step-IsValid {db} (notified e) v = mark_notified-IsValid e db v
Step-IsValid {db} (agent now name hash) v = upsert_agent-IsValid now name hash db v
Step-IsValid {db} (touch now id) v = touch_agent-IsValid now id db v

pub Reach-IsValid : {db : Db} → Reach db → IsValid db
Reach-IsValid start = empty-IsValid
Reach-IsValid (next r s) = Step-IsValid s (Reach-IsValid r)
