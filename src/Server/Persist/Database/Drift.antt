-- ===== src/Server/Persist/Database/Drift.antt =====
-- internal/server/history.go over internal/store: which drift is recorded.
use mathlib.Core.Path.{subst}
use hsm_doctor.Base.{
  ℕ, String, ◌≡◌, refl, ◌∙◌, ◌⊎◌, inl, inr, Bool, true, false, Option, none, some, List, [], ◌∷◌,
  ◌++◌, Bool-cases, Option-cases,
}
use hsm_doctor.Base.Int.{pos}
use hsm_doctor.Base.Clock.{Time, Format}
use hsm_doctor.Base.Fallible.{Fallible, done, failed, Fallible-cases}
use hsm_doctor.Inventory.{Inventory, TokenInfo}
use hsm_doctor.Regression.{Regression, detect}
use hsm_doctor.Snapshot.{Diff, compare, empty, count}
use hsm_doctor.Store.{Db, ScanRecord, DriftEvent, known_hsm}
use hsm_doctor.Store.Events.{insert_drift_event}
use hsm_doctor.Server.Records.{Report, Json, State}
use hsm_doctor.Server.Persist.{
  check_regression, check_drift, compare_previous, told_regression, told_drift,
}
use hsm_doctor.Server.Persist.Database.{db_queries}
use hsm_doctor.Server.Persist.Database.Kept.{Keeps, same-Keeps}
use hsm_doctor.Server.Persist.Database.Tables.{insert_regression_event-Keeps}

module _ (json : Json) (fmt : Format) (webhook : Bool) (now : Time) where
  told_regression-Keeps :
      (hsm_id : ℕ) (t : TokenInfo) (source : String) (reg : Regression) (detail : String)
      (m : Fallible ℕ × Db) (st : State Db)
      → Keeps st.db m.1
      → Keeps st.db
          (told_regression db_queries json fmt webhook now hsm_id t source reg detail m st).db
  told_regression-Keeps hsm_id t source reg detail (failed e, s) st k = k
  told_regression-Keeps hsm_id t source reg detail (done id, s) st k = k

  check_regression-Keeps :
      (hsm_id : ℕ) (t : TokenInfo) (source : String) (prev : ScanRecord) (new_id : ℕ)
      (rep old : Report) (st : State Db)
      → Keeps st.db
          (check_regression db_queries json fmt webhook now hsm_id t source prev new_id rep old
            st).db
  unfolding check_regression db_queries
  check_regression-Keeps hsm_id t source prev new_id rep old st =
      elim (Option-cases (detect prev.score rep.score old.findings rep.findings (pos 0))) [
        | inl e ↦ rw (check_regression, e) (same-Keeps st.db)
        | inr (reg, e) ↦ elim (Fallible-cases (json.encode_regression reg)) [
          | inr (m, f) ↦ rw (check_regression, e, f) (same-Keeps st.db)
          | inl (detail, f) ↦
              rw (check_regression, e, f)
                (told_regression-Keeps hsm_id t source reg detail _ st
                  (insert_regression_event-Keeps _ st.db))
        ]
      ]

  abbrev pub event : ℕ → ℕ → ℕ → ℕ → Diff → String → DriftEvent
  event id hsm_id old_id new_id d blob = record {
    id = id;
    hsm_id = hsm_id;
    detected_at = now;
    old_scan_id = old_id;
    new_scan_id = new_id;
    changes = count d;
    diff = blob;
  }

  -- The scans and the modules stay, and the drift is recorded where there is some.
  abbrev Drifted : ℕ → ℕ → ℕ → Diff → Db → Db → Type 0
  Drifted hsm_id old_id new_id d db db' =
      (db'.hsms ≡ db.hsms)
      × (db'.scans ≡ db.scans)
      × (((blob : String) → ¬ ((empty d ≡ false) × (json.encode_diff d ≡ done blob)))
            × (db'.drift_events ≡ db.drift_events)
          ⊎ (blob : String) × (empty d ≡ false)
            × (json.encode_diff d ≡ done blob)
            × (db'.drift_events
                ≡ db.drift_events ++ event db.next_drift hsm_id old_id new_id d blob ∷ []))

  told_drift-db :
      (hsm_id : ℕ) (t : TokenInfo) (source : String) (d : Diff) (blob : String)
      (m : Fallible ℕ × Db) (st : State Db)
      → (told_drift db_queries json fmt webhook now hsm_id t source d blob m st).db ≡ m.1
  told_drift-db hsm_id t source d blob (failed e, s) st = refl
  told_drift-db hsm_id t source d blob (done id, s) st = refl

  check_drift-Drifted :
      (hsm_id : ℕ) (t : TokenInfo) (source : String) (prev : ScanRecord) (new_id : ℕ) (d : Diff)
      (st : State Db)
      → known_hsm hsm_id st.db ≡ true
      → Drifted hsm_id prev.id new_id d st.db
          (check_drift db_queries json fmt webhook now hsm_id t source prev new_id d st).db
  unfolding check_drift db_queries insert_drift_event
  check_drift-Drifted hsm_id t source prev new_id d st k = elim (Bool-cases (empty d)) [
    | inl e ↦ rw (check_drift, e) (refl, refl, inl (λ blob (n, _). cc, refl))
    | inr e ↦ elim (Fallible-cases (json.encode_diff d)) [
      | inr (m, f) ↦ rw (check_drift, e, f) (refl, refl, inl (λ blob (_, n). cc, refl))
      | inl (blob, f) ↦
          rw (check_drift, e, f, told_drift-db, insert_drift_event, k)
            (refl, refl, inr (blob, refl, refl, refl))
    ]
  ]

  -- The report of the latest scan can be read, the inventories differ, and the difference can be
  -- written.
  abbrev pub HasDrift :
      Inventory → Option ScanRecord → ScanRecord → Report → Inventory → String → Type 0
  HasDrift inv latest prev old old_inv blob =
      (latest ≡ some prev)
      × (json.decode_report prev.report ≡ done old)
      × (old.inventory ≡ some old_inv)
      × (empty (compare fmt old_inv inv) ≡ false)
      × (json.encode_diff (compare fmt old_inv inv) ≡ done blob)

  -- Where there is drift, one event is added, and otherwise none.
  abbrev pub DriftRecorded :
      ℕ → Inventory → Option ScanRecord → ℕ → ℕ → List DriftEvent → List DriftEvent → Type 0
  DriftRecorded hsm_id inv latest new_id next events events' =
      ((prev : ScanRecord) (old : Report) (old_inv : Inventory) (blob : String)
          → ¬ (HasDrift inv latest prev old old_inv blob))
        × (events' ≡ events)
      ⊎ (prev : ScanRecord) × (old : Report) × (old_inv : Inventory) × (blob : String) × HasDrift
          inv latest prev old old_inv blob
        × (events' ≡ events ++ event next hsm_id prev.id new_id (compare fmt old_inv inv) blob ∷ [])

  abbrev pub Compared : ℕ → Inventory → Option ScanRecord → ℕ → Db → Db → Type 0
  Compared hsm_id inv latest new_id db db' =
      (db'.hsms ≡ db.hsms)
      × (db'.scans ≡ db.scans)
      × DriftRecorded hsm_id inv latest new_id db.next_drift db.drift_events db'.drift_events

  pub compare_previous-Compared :
      (hsm_id : ℕ) (inv : Inventory) (t : TokenInfo) (source : String) (rep : Report)
      (latest : Option ScanRecord) (new_id : ℕ) (st : State Db)
      → known_hsm hsm_id st.db ≡ true
      → Compared hsm_id inv latest new_id st.db
          (compare_previous db_queries json fmt webhook now hsm_id inv t source rep latest new_id
            st).db
  unfolding compare_previous
  compare_previous-Compared hsm_id inv t source rep none new_id st k =
      (refl, refl, inl (λ prev old old_inv blob (n, _, _, _, _). cc, refl))
  compare_previous-Compared hsm_id inv t source rep (some prev) new_id st k =
      elim (Fallible-cases (json.decode_report prev.report)) [
        | inr (m, e) ↦
            rw (compare_previous, e)
              (
                refl,
                refl,
                inl (λ p old old_inv blob (n, d, _, _, _). let same : prev ≡ p = cc in cc, refl),
              )
        | inl (old, e) ↦ elim (Option-cases old.inventory) [
          | inl f ↦
              rw (compare_previous, e, f)
                (
                  refl,
                  refl,
                  inl (
                    λ p o old_inv blob (n, d, i, _, _).
                        let same : prev ≡ p = cc in let same' : old ≡ o = cc in cc,
                    refl,
                  ),
                )
          | inr (old_inv, f) ↦
              let st' =
                check_regression db_queries json fmt webhook now hsm_id t source prev new_id rep old
                  st in
              let keeps = check_regression-Keeps hsm_id t source prev new_id rep old st in
              let drifted =
                check_drift-Drifted hsm_id t source prev new_id (compare fmt old_inv inv) st'
                  (rw keeps.hsms k) in
              let (modules, scans, events) = drifted in
              rw (compare_previous, e, f)
                (
                  modules ∙ keeps.hsms,
                  scans ∙ keeps.scans,
                  elim events [
                    | inl (no_diff, same) ↦ inl (
                      λ p o other blob (n, d, i, differs, encoded).
                          let same_prev : prev ≡ p = cc in
                          let same_report : old ≡ o = cc in
                          let same_inv : other ≡ old_inv = cc in
                          let (differs', encoded') =
                            subst
                              (λ z.
                                (empty (compare fmt z inv) ≡ false)
                                × (json.encode_diff (compare fmt z inv) ≡ done blob))
                              same_inv (differs, encoded) in
                          no_diff blob (differs', encoded'),
                      same ∙ keeps.drift_events,
                    )
                    | inr (blob, differs, encoded, added) ↦ inr (
                      prev,
                      old,
                      old_inv,
                      blob,
                      (refl, e, f, differs, encoded),
                      added ∙ rw (keeps.drift_events, keeps.next_drift) refl,
                    )
                  ],
                )
        ]
      ]
