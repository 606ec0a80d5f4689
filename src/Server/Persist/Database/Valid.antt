-- ===== src/Server/Persist/Database/Valid.antt =====
-- internal/server/history.go over internal/store: storing a scan keeps the database valid.
use hsm_doctor.Base.{ℕ, String, inl, inr, Bool, Option, none, some, ◌==◌, Bool-cases, Option-cases}
use hsm_doctor.Base.Int.{pos}
use hsm_doctor.Base.Clock.{Time, Format}
use hsm_doctor.Base.Fallible.{Fallible, done, failed, Fallible-cases}
use hsm_doctor.Inventory.{Inventory, TokenInfo}
use hsm_doctor.Regression.{Regression, detect}
use hsm_doctor.Snapshot.{Diff, compare, empty}
use hsm_doctor.Store
use hsm_doctor.Store.{ScanRecord, Db}
use hsm_doctor.Store.Valid.{
  IsValid, insert_scan-IsValid, insert_drift_event-IsValid, insert_regression_event-IsValid,
}
use hsm_doctor.Store.Valid.Hsms.{upsert_hsm-IsValid}
use hsm_doctor.Server.Records.{Report, Json, State, hsm_of, scan_of}
use hsm_doctor.Server.Persist.{
  refresh_shared_keys, check_regression, check_drift, compare_previous, store_scan, shared_keys,
  told_regression, told_drift, persist_token, persist_scan,
}
use hsm_doctor.Server.Persist.Database.{db_queries}
use hsm_doctor.Server.Persist.Database.Kept.{notify_expiry-IsValid}

module _ (json : Json) (fmt : Format) (webhook : Bool) (now : Time) where
  refresh-IsValid :
      (st : State Db)
      → IsValid st.db
      → IsValid (refresh_shared_keys db_queries json fmt webhook now st).db
  unfolding refresh_shared_keys
  refresh-IsValid st v = elim (Fallible-cases (shared_keys db_queries json fmt webhook now st.db)) [
    | inl (l, e) ↦ rw (refresh_shared_keys, e) v
    | inr (m, e) ↦ rw (refresh_shared_keys, e) v
  ]

  told_regression-IsValid :
      (hsm_id : ℕ) (t : TokenInfo) (source : String) (reg : Regression) (detail : String)
      (r : Fallible ℕ × Db) (st : State Db)
      → IsValid r.1
      → IsValid (told_regression db_queries json fmt webhook now hsm_id t source reg detail r st).db
  told_regression-IsValid hsm_id t source reg detail (failed e, s) st v = v
  told_regression-IsValid hsm_id t source reg detail (done id, s) st v = v

  told_drift-IsValid :
      (hsm_id : ℕ) (t : TokenInfo) (source : String) (d : Diff) (blob : String)
      (r : Fallible ℕ × Db) (st : State Db)
      → IsValid r.1
      → IsValid (told_drift db_queries json fmt webhook now hsm_id t source d blob r st).db
  told_drift-IsValid hsm_id t source d blob (failed e, s) st v = v
  told_drift-IsValid hsm_id t source d blob (done id, s) st v = v

  check_regression-IsValid :
      (hsm_id : ℕ) (t : TokenInfo) (source : String) (prev : ScanRecord) (new_id : ℕ)
      (rep prev_rep : Report) (st : State Db)
      → IsValid st.db
      → IsValid
          (check_regression db_queries json fmt webhook now hsm_id t source prev new_id rep prev_rep
            st).db
  unfolding check_regression db_queries
  check_regression-IsValid hsm_id t source prev new_id rep prev_rep st v =
      elim (Option-cases (detect prev.score rep.score prev_rep.findings rep.findings (pos 0))) [
        | inl e ↦ rw (check_regression, e) v
        | inr (reg, e) ↦ elim (Fallible-cases (json.encode_regression reg)) [
          | inr (m, f) ↦ rw (check_regression, e, f) v
          | inl (detail, f) ↦
              rw (check_regression, e, f)
                (told_regression-IsValid hsm_id t source reg detail _ st
                  (insert_regression_event-IsValid _ st.db v))
        ]
      ]

  check_drift-IsValid :
      (hsm_id : ℕ) (t : TokenInfo) (source : String) (prev : ScanRecord) (new_id : ℕ) (d : Diff)
      (st : State Db)
      → IsValid st.db
      → IsValid (check_drift db_queries json fmt webhook now hsm_id t source prev new_id d st).db
  unfolding check_drift db_queries
  check_drift-IsValid hsm_id t source prev new_id d st v = elim (Bool-cases (empty d)) [
    | inl e ↦ rw (check_drift, e) v
    | inr e ↦ elim (Fallible-cases (json.encode_diff d)) [
      | inr (m, f) ↦ rw (check_drift, e, f) v
      | inl (blob, f) ↦
          rw (check_drift, e, f)
            (told_drift-IsValid hsm_id t source d blob _ st (insert_drift_event-IsValid _ st.db v))
    ]
  ]

  compare_previous-IsValid :
      (hsm_id : ℕ) (inv : Inventory) (t : TokenInfo) (source : String) (rep : Report)
      (prev : Option ScanRecord) (new_id : ℕ) (st : State Db)
      → IsValid st.db
      → IsValid
          (compare_previous db_queries json fmt webhook now hsm_id inv t source rep prev new_id
            st).db
  unfolding compare_previous
  compare_previous-IsValid hsm_id inv t source rep none new_id st v = v
  compare_previous-IsValid hsm_id inv t source rep (some prev) new_id st v =
      elim (Fallible-cases (json.decode_report prev.report)) [
        | inr (m, e) ↦ rw (compare_previous, e) v
        | inl (old, e) ↦ elim (Option-cases old.inventory) [
          | inl f ↦ rw (compare_previous, e, f) v
          | inr (old_inv, f) ↦
              rw (compare_previous, e, f)
                (check_drift-IsValid hsm_id t source prev new_id (compare fmt old_inv inv) _
                  (check_regression-IsValid hsm_id t source prev new_id rep old st v))
        ]
      ]

  store_scan-IsValid :
      (hsm_id : ℕ) (inv : Inventory) (t : TokenInfo) (source : String) (rep : Report)
      (st : State Db)
      → IsValid st.db
      → IsValid (store_scan db_queries json fmt webhook now hsm_id inv t source rep st).db
  unfolding store_scan db_queries
  store_scan-IsValid hsm_id inv t source rep st v = elim (Fallible-cases (json.encode_report rep)) [
    | inr (m, e) ↦ rw (store_scan, e) v
    | inl (blob, e) ↦
        let rec = scan_of hsm_id inv rep blob in
        let w = insert_scan-IsValid rec st.db v in
        elim (Option-cases (Store.insert_scan rec st.db).0) [
          | inl f ↦ rw (store_scan, e, f) w
          | inr (id, f) ↦
              rw (store_scan, e, f)
                (compare_previous-IsValid hsm_id inv t source rep _ id _ (refresh-IsValid _ w))
        ]
  ]

  persist_token-IsValid :
      (inv : Inventory) (t : TokenInfo) (source : String) (rep : Report) (st : State Db)
      → IsValid st.db
      → IsValid (persist_token db_queries json fmt webhook now inv t source rep st).db
  unfolding persist_token db_queries
  persist_token-IsValid inv t source rep st v =
      let h = hsm_of inv t source in
      store_scan-IsValid _ inv t source rep _
        (notify_expiry-IsValid fmt now _ inv st.notifier _ (upsert_hsm-IsValid now h st.db v))

  -- Storing a scan keeps the database valid, whatever the report, its source, the JSON encoding, the
  -- clock and the settings of the webhook and the notifier.
  pub persist_scan-IsValid :
      (rep : Report) (source : String) (st : State Db)
      → IsValid st.db
      → IsValid (persist_scan db_queries json fmt webhook now rep source st).db
  unfolding persist_scan
  persist_scan-IsValid rep source st v = elim (Option-cases rep.inventory) [
    | inl e ↦ rw (persist_scan, e) v
    | inr (inv, e) ↦ elim (Option-cases inv.slot.token) [
      | inl f ↦ rw (persist_scan, e, f) v
      | inr (t, f) ↦ elim (Bool-cases (t.serial_number == "")) [
        | inl g ↦ rw (persist_scan, e, f, g) v
        | inr g ↦ rw (persist_scan, e, f, g) (persist_token-IsValid inv t source rep st v)
      ]
    ]
  ]
