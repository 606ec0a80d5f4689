-- ===== src/Server/Persist/Database/Tables.antt =====
-- internal/store: what the queries of a scan leave in the tables.
use hsm_doctor.Base.{
  ℕ, ◌≡◌, refl, ap, inl, inr, true, some, List, [], ◌∷◌, eqb, any, keep, arith, Bool-cases,
  Option-cases,
}
use hsm_doctor.Base.Sort.{sort_by}
use hsm_doctor.Base.Clock.{Time}
use hsm_doctor.Store
use hsm_doctor.Store.{
  Hsm, Db, ScanRecord, RegressionEvent, known_hsm, hsm_by_id, get_hsm, upsert_hsm, newer_scan,
  newest_scans, latest_scan,
}
use hsm_doctor.Store.Events.{insert_regression_event}
use hsm_doctor.Server.Persist.Database.Kept.{Keeps, same-Keeps}

pub insert_regression_event-Keeps :
    (e : RegressionEvent) (db : Db) → Keeps db (insert_regression_event e db).1
unfolding insert_regression_event
insert_regression_event-Keeps e db = elim (Bool-cases (known_hsm e.hsm_id db)) [
  | inl k ↦
      rw (insert_regression_event, k)
        (record {
          hsms = refl;
          scans = refl;
          drift_events = refl;
          next_scan = refl;
          next_drift = refl;
        })
  | inr k ↦ rw (insert_regression_event, k) (same-Keeps db)
]

pub upsert_hsm-tables :
    (now : Time) (h : Hsm) (db : Db)
    → let db' = (upsert_hsm now h db).1 in
      (db'.scans ≡ db.scans)
      × (db'.drift_events ≡ db.drift_events)
      × (db'.next_scan ≡ db.next_scan)
      × (db'.next_drift ≡ db.next_drift)
unfolding upsert_hsm
upsert_hsm-tables now h db = elim (Option-cases (Store.find_hsm h db.hsms)) [
  | inl e ↦ rw (upsert_hsm, e) (refl, refl, refl, refl)
  | inr (id, e) ↦ rw (upsert_hsm, e) (refl, refl, refl, refl)
]

pub latest_scan-scans :
    (id : ℕ) (db db' : Db) → db'.scans ≡ db.scans → latest_scan id db' ≡ latest_scan id db
unfolding latest_scan newest_scans
latest_scan-scans id db db' e =
    ap
      (λ (l : List ScanRecord).
        Store.head (sort_by newer_scan (keep (λ (r : ScanRecord). eqb r.hsm_id id) l)))
      e

pub get_hsm-known_hsm :
    (id : ℕ) (db : Db) (row : Hsm) → get_hsm id db ≡ some row → known_hsm id db ≡ true
unfolding get_hsm hsm_by_id
get_hsm-known_hsm id db row = go db.hsms
  where
    go :
        (rows : List Hsm)
        → hsm_by_id id rows ≡ some row
        → any (λ (h : Hsm). eqb h.id id) rows ≡ true
    go [] e = cc
    go (x ∷ rows) e = elim (Bool-cases (eqb x.id id)) [
      | inl s ↦ rw s refl
      | inr s ↦ rw s (go rows (ground arith))
    ]
