-- ===== src/Server/Persist/Database/Recorded.antt =====
-- internal/server/history.go over internal/store: what is stored of a scan.
use mathlib.Core.Path.{subst}
use hsm_doctor.Base.{
  ℕ, String, ◌≡◌, ◌≢◌, refl, ap, sym, ◌∙◌, Bool, true, false, some, [], ◌∷◌, ◌++◌, ◌==◌, eq_iff,
  arith,
}
use hsm_doctor.Base.Clock.{Time, Format}
use hsm_doctor.Base.Fallible.{done}
use hsm_doctor.Inventory.{Inventory, TokenInfo}
use hsm_doctor.Store.{
  Hsm, Db, ScanRecord, known_hsm, hsm_by_id, get_hsm, upsert_hsm, insert_scan, latest_scan,
}
use hsm_doctor.Server.Records.{Report, Json, State, scan_of}
use hsm_doctor.Server.Persist.{compare_previous}
use hsm_doctor.Server.Persist.Database.{db_queries}
use hsm_doctor.Server.Persist.Database.Kept.{Keeps}
use hsm_doctor.Store.Valid.{IsValid}
use hsm_doctor.Store.Upsert.{upsert_hsm-IsRowAfter}
use hsm_doctor.Server.Records.{hsm_of}
use hsm_doctor.Server.Persist.{noted, refresh_shared_keys, store_scan, persist_token, persist_scan}
use hsm_doctor.Server.Persist.Database.Kept.{notify_expiry-Keeps}
use hsm_doctor.Server.Persist.Database.Rescan.{refresh-fields}
use hsm_doctor.Server.Persist.Database.Tables.{
  upsert_hsm-tables, latest_scan-scans, get_hsm-known_hsm,
}
use hsm_doctor.Server.Persist.Database.Drift.{DriftRecorded, compare_previous-Compared}
use hsm_doctor.Server.Persist.Database.Counts.{IsScanOf, scan_of-IsScanOf}

insert_scan-tables :
    (rec : ScanRecord) (db : Db)
    → known_hsm rec.hsm_id db ≡ true
    → let (id, db') = insert_scan rec db in
      (id ≡ some db.next_scan)
      × (db'.hsms ≡ db.hsms)
      × (db'.scans ≡ db.scans ++ record rec { id = db.next_scan } ∷ [])
      × (db'.drift_events ≡ db.drift_events)
      × (db'.next_drift ≡ db.next_drift)
unfolding insert_scan
insert_scan-tables rec db k = rw (insert_scan, k) (refl, refl, refl, refl, refl)

get_hsm-hsms : (id : ℕ) (db' db : Db) → db'.hsms ≡ db.hsms → get_hsm id db' ≡ get_hsm id db
unfolding get_hsm
get_hsm-hsms id db' db e = ap (hsm_by_id id) e

module _ (json : Json) (fmt : Format) (webhook : Bool) (now : Time) where
  abbrev Stored : ℕ → Inventory → Report → String → Db → Db → Type 0
  Stored hsm_id inv rep blob db db' =
      (db'.hsms ≡ db.hsms)
      × (db'.scans ≡ db.scans ++ record (scan_of hsm_id inv rep blob) { id = db.next_scan } ∷ [])
      × DriftRecorded json fmt webhook now hsm_id inv (latest_scan hsm_id db) db.next_scan
          db.next_drift db.drift_events db'.drift_events

  store_scan-Stored :
      (hsm_id : ℕ) (inv : Inventory) (t : TokenInfo) (source : String) (rep : Report)
      (blob : String) (st : State Db)
      → known_hsm hsm_id st.db ≡ true
      → json.encode_report rep ≡ done blob
      → Stored hsm_id inv rep blob st.db
          (store_scan db_queries json fmt webhook now hsm_id inv t source rep st).db
  unfolding store_scan db_queries refresh_shared_keys
  store_scan-Stored hsm_id inv t source rep blob st k e =
      let rec = scan_of hsm_id inv rep blob in
      let own : rec.hsm_id ≡ hsm_id = (scan_of-IsScanOf hsm_id inv rep blob 0).1 in
      let (n, modules, scans, events, next) =
        insert_scan-tables rec st.db (subst (λ i. known_hsm i st.db ≡ true) (sym own) k) in
      let st' : State Db = record st { db = (insert_scan rec st.db).1 } in
      let fresh = refresh_shared_keys db_queries json fmt webhook now st' in
      let same : fresh.db ≡ st'.db = (refresh-fields json fmt webhook now st').0 in
      let latest = latest_scan hsm_id st.db in
      let compared =
        compare_previous-Compared json fmt webhook now hsm_id inv t source rep latest
          st.db.next_scan fresh (rw (same, modules) k) in
      let eq : store_scan db_queries json fmt webhook now hsm_id inv t source rep st
          ≡ compare_previous db_queries json fmt webhook now hsm_id inv t source rep latest
              st.db.next_scan fresh =
        rw (store_scan, e, n) refl in
      let (modules', scans', drift) = rw (same, events, next) at compared in
      rw eq (modules' ∙ modules, scans' ∙ scans, drift)

  -- The module has a row with the token's serial and the report's source, seen now, and one scan is
  -- added, that of the report under the row's id; drift from the module's latest scan before it is
  -- recorded.
  abbrev pub Recorded : Inventory → TokenInfo → String → Report → String → Db → Db → Type 0
  Recorded inv t source rep blob db db' =
      (id : ℕ) × (row : Hsm) × (scan : ScanRecord) × (get_hsm id db' ≡ some row)
      × (row.serial ≡ t.serial_number)
      × (row.source ≡ source)
      × (row.last_seen ≡ now)
      × (db'.scans ≡ db.scans ++ scan ∷ [])
      × IsScanOf id inv rep blob db.next_scan scan
      × DriftRecorded json fmt webhook now id inv (latest_scan id db) db.next_scan db.next_drift
          db.drift_events db'.drift_events

  persist_token-Recorded :
      (inv : Inventory) (t : TokenInfo) (source : String) (rep : Report) (blob : String)
      (st : State Db)
      → IsValid st.db
      → json.encode_report rep ≡ done blob
      → Recorded inv t source rep blob st.db
          (persist_token db_queries json fmt webhook now inv t source rep st).db
  unfolding persist_token db_queries
  persist_token-Recorded inv t source rep blob st v e =
      let h = hsm_of inv t source in
      let id = (upsert_hsm now h st.db).0 in
      let db1 = (upsert_hsm now h st.db).1 in
      let (row, there, after) = upsert_hsm-IsRowAfter now h st.db v in
      let (scans, events, next, next') = upsert_hsm-tables now h st.db in
      let st1 : State Db = record st { db = db1 } in
      let keeps : Keeps db1 (noted db_queries json fmt webhook now id inv st1).db =
        notify_expiry-Keeps fmt now id inv st.notifier db1 in
      let st2 = noted db_queries json fmt webhook now id inv st1 in
      let (modules, scans', drift) =
        store_scan-Stored id inv t source rep blob st2
          (rw keeps.hsms (get_hsm-known_hsm id db1 row there)) e in
      let latest : latest_scan id st2.db ≡ latest_scan id st.db =
        latest_scan-scans id st.db st2.db (keeps.scans ∙ scans) in
      let next_scan : st2.db.next_scan ≡ st.db.next_scan = keeps.next_scan ∙ next in
      let next_drift : st2.db.next_drift ≡ st.db.next_drift = keeps.next_drift ∙ next' in
      let before : st2.db.drift_events ≡ st.db.drift_events = keeps.drift_events ∙ events in
      let scans_eq : st2.db.scans ≡ st.db.scans = keeps.scans ∙ scans in
      (
        id,
        row,
        record (scan_of id inv rep blob) { id = st.db.next_scan },
        get_hsm-hsms id _ db1 (modules ∙ keeps.hsms) ∙ there,
        after.0.0,
        after.0.1,
        after.8,
        scans' ∙ rw (scans_eq, next_scan) refl,
        scan_of-IsScanOf id inv rep blob st.db.next_scan,
        rw (latest, next_scan, next_drift, before) at drift,
      )

  -- In a valid database, a scan of a token with a serial, whose report can be encoded, is stored: a row
  -- of the serial and the source, seen now, and one scan, with the time, score, counts and text of the
  -- report and the row's id. A drift event is added exactly where the latest scan of that row had a
  -- report that can be read, with an inventory that differs, and the difference can be encoded; it names
  -- the row, both scans and the number of changes.
  pub persist_scan-Recorded :
      (rep : Report) (source : String) (st : State Db) (inv : Inventory) (t : TokenInfo)
      (blob : String)
      → IsValid st.db
      → rep.inventory ≡ some inv
      → inv.slot.token ≡ some t
      → t.serial_number ≢ ""
      → json.encode_report rep ≡ done blob
      → Recorded inv t source rep blob st.db
          (persist_scan db_queries json fmt webhook now rep source st).db
  unfolding persist_scan
  persist_scan-Recorded rep source st inv t blob v i k s e =
      let serial : (t.serial_number == "") ≡ false = ground (arith, eq_iff t.serial_number "") in
      let eq : persist_scan db_queries json fmt webhook now rep source st
          ≡ persist_token db_queries json fmt webhook now inv t source rep st =
        simp (persist_scan, i, k, serial) in
      rw eq (persist_token-Recorded inv t source rep blob st v e)
