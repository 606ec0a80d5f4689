-- ===== src/Server/Persist/Database/Rescan.antt =====
-- internal/server/history.go over internal/store: scanning a token that did not change.
use hsm_doctor.Base.{
  ℕ, String, ◌≡◌, refl, ◌∙◌, inl, inr, Bool, true, none, some, List, [], ◌∷◌, ◌++◌, arith,
}
use hsm_doctor.Base.Int.{ℤ, pos, ◌-ℤ◌, wrap64, eq_of_parts, -ℤ_parts}
use hsm_doctor.Base.Clock.{Time, Format}
use hsm_doctor.Base.Fallible.{done, Fallible-cases}
use hsm_doctor.Inventory.{Inventory, TokenInfo}
use hsm_doctor.Regression.{detect}
use hsm_doctor.Snapshot.{empty}
use hsm_doctor.Store
use hsm_doctor.Store.{insert_scan, ScanRecord, Db}
use hsm_doctor.Server.Records.{Report, Json, State, scan_of, counted, count_findings}
use hsm_doctor.Server.Persist.{
  refresh_shared_keys, check_regression, check_drift, compare_previous, store_scan, shared_keys,
}
use hsm_doctor.Server.Persist.Database.{db_queries}
use hsm_doctor.Policy.Severity.{Severity, critical, high, medium, low, info, unknown}
use hsm_doctor.Policy.Evaluate.{Finding}
use hsm_doctor.Snapshot.Unchanged.{compare_self}
use hsm_doctor.Regression.Laws.{detect-none_iff}

sub_self : (z : ℤ) → z -ℤ z ≡ pos 0
sub_self z = eq_of_parts (z -ℤ z) (pos 0) (omega (arith, -ℤ_parts z z))

detect_self :
    (score : ℤ) (findings : List Finding) → detect score score findings findings (pos 0) ≡ none
detect_self score findings =
    (detect-none_iff score score findings findings (pos 0)).1
      (rw (sub_self score) (unfold wrap64 in refl), λ id h. h)

counted-hsm_id : (v : Severity) (r : ScanRecord) → (counted v r).hsm_id ≡ r.hsm_id
counted-hsm_id critical r = refl
counted-hsm_id high r = refl
counted-hsm_id medium r = refl
counted-hsm_id low r = refl
counted-hsm_id info r = refl
counted-hsm_id (unknown s) r = refl

count_findings-hsm_id :
    (fs : List Finding) (r : ScanRecord) → (count_findings r fs).hsm_id ≡ r.hsm_id
unfolding count_findings
count_findings-hsm_id [] r = refl
count_findings-hsm_id (f ∷ fs) r =
    count_findings-hsm_id fs (counted f.severity r) ∙ counted-hsm_id f.severity r

-- What is told of a scan: the events, what was sent and the metric.
abbrev pub Quiet : State Db → State Db → Type 0
Quiet st st' =
    (st'.db.drift_events ≡ st.db.drift_events)
    × (st'.db.regression_events ≡ st.db.regression_events)
    × (st'.posts ≡ st.posts)
    × (st'.mails ≡ st.mails)
    × (st'.regressions ≡ st.regressions)

inserted :
    (rec : ScanRecord) (db : Db)
    → Store.known_hsm rec.hsm_id db ≡ true
    → let (id, db') = insert_scan rec db in
      (id ≡ some db.next_scan)
      × (db'.scans ≡ db.scans ++ record rec { id = db.next_scan } ∷ [])
      × (db'.drift_events ≡ db.drift_events)
      × (db'.regression_events ≡ db.regression_events)
unfolding insert_scan
inserted rec db k = rw (insert_scan, k) (refl, refl, refl, refl)

module _ (json : Json) (fmt : Format) (webhook : Bool) (now : Time) where
  pub refresh-fields :
      (st : State Db)
      → let st' = refresh_shared_keys db_queries json fmt webhook now st in
        (st'.db ≡ st.db)
        × (st'.posts ≡ st.posts)
        × (st'.mails ≡ st.mails)
        × (st'.regressions ≡ st.regressions)
  unfolding refresh_shared_keys
  refresh-fields st = elim (Fallible-cases (shared_keys db_queries json fmt webhook now st.db)) [
    | inl (l, e) ↦ rw (refresh_shared_keys, e) (refl, refl, refl, refl)
    | inr (m, e) ↦ rw (refresh_shared_keys, e) (refl, refl, refl, refl)
  ]

  compare_previous-unchanged :
      (hsm_id : ℕ) (inv : Inventory) (t : TokenInfo) (source : String) (rep : Report) (new_id : ℕ)
      (st : State Db) (prev : ScanRecord) (old : Report)
      → json.decode_report prev.report ≡ done old
      → old.inventory ≡ some inv
      → old.findings ≡ rep.findings
      → prev.score ≡ rep.score
      → compare_previous db_queries json fmt webhook now hsm_id inv t source rep
          (some prev)
          new_id
          st
        ≡ st
  unfolding compare_previous check_regression check_drift empty
  compare_previous-unchanged hsm_id inv t source rep new_id st prev old d i f s =
      rw
        (
          compare_previous,
          d,
          i,
          compare_self fmt inv,
          check_regression,
          s,
          f,
          detect_self rep.score rep.findings,
        )
        refl

  -- Where the latest stored scan of a known module has the same inventory, the same findings and the
  -- same score, storing the new one adds it to the module's scans and records no drift and no
  -- regression, posts nothing, mails nothing and leaves the metric of regressions.
  pub store_scan-unchanged :
      (hsm_id : ℕ) (inv : Inventory) (t : TokenInfo) (source : String) (rep : Report)
      (st : State Db) (prev : ScanRecord) (old : Report) (blob : String)
      → Store.known_hsm hsm_id st.db ≡ true
      → Store.latest_scan hsm_id st.db ≡ some prev
      → json.encode_report rep ≡ done blob
      → json.decode_report prev.report ≡ done old
      → old.inventory ≡ some inv
      → old.findings ≡ rep.findings
      → prev.score ≡ rep.score
      → let st' = store_scan db_queries json fmt webhook now hsm_id inv t source rep st in
        (st'.db.scans
          ≡ st.db.scans ++ record (scan_of hsm_id inv rep blob) { id = st.db.next_scan } ∷ [])
        × Quiet st st'
  unfolding store_scan db_queries
  store_scan-unchanged hsm_id inv t source rep st prev old blob k l e d i f s =
      let rec = scan_of hsm_id inv rep blob in
      let known : Store.known_hsm rec.hsm_id st.db ≡ true =
        rw (count_findings-hsm_id rep.findings _) k in
      let (n, x, y, z) = inserted rec st.db known in
      let st' : State Db = record st { db = (insert_scan rec st.db).1 } in
      let same =
        compare_previous-unchanged hsm_id inv t source rep st.db.next_scan
          (refresh_shared_keys db_queries json fmt webhook now st') prev old d i f s in
      let eq : store_scan db_queries json fmt webhook now hsm_id inv t source rep st
          ≡ refresh_shared_keys db_queries json fmt webhook now st' =
        rw (store_scan, e, n, l) same in
      let (a, b, c, g) = refresh-fields st' in
      rw (eq, a, b, c, g, x, y, z) (refl, (refl, refl, refl, refl, refl))
