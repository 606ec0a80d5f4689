-- ===== src/Server/Persist.antt =====
-- internal/server/history.go and internal/server/sharedkeys.go: what the server keeps of a finished
-- scan. The clock reads the same throughout one call. Log lines are left out.
pub mod Database
use hsm_doctor.Base.{
  ℕ, ◌+◌, String, Bool, Option, none, some, List, [], ◌∷◌, ◌++◌, ◌==◌, eqb, if◌then◌else◌, length,
}
use hsm_doctor.Base.Int.{pos}
use hsm_doctor.Base.Text.Parts.{byte_length}
use hsm_doctor.Base.Clock.{Time, Format}
use hsm_doctor.Base.Fallible.{Fallible, done, failed, ◌>>=◌}
use hsm_doctor.Inventory.{Inventory, TokenInfo}
use hsm_doctor.Snapshot.{Diff, compare, empty, count}
use hsm_doctor.Regression.{Regression, detect}
use hsm_doctor.SharedKeys
use hsm_doctor.SharedKeys.{SharedKey, Source}
use hsm_doctor.Notify.{notify_drift, notify_regression}
use hsm_doctor.Store.{Hsm, ScanRecord}
use hsm_doctor.Store.Events.{HsmSummary}
use hsm_doctor.Server.Notices.{notify_expiry, drift_summary}
use hsm_doctor.Server.Records.{
  Report, Queries, Json, DriftHsm, Payload, drift_payload, regression_payload, State, hsm_of,
  scan_of,
}

module _ {S : Type 0} (q : Queries S) (json : Json) (fmt : Format) (webhook : Bool)
    (now : Time) where
  -- What one module adds to the fleet: nothing where its latest report cannot be read.
  abbrev source_of : Hsm → Option ScanRecord → List Source
  source_of h none = []
  source_of h (some rec) =
      if eqb (byte_length rec.report) 0 then [] else elim (json.decode_report rec.report) [
        | failed e ↦ []
        | done rep ↦ elim rep.inventory [
          | none ↦ []
          | some inv ↦
              record {
                hsm_id = pos h.id;
                hsm_label = h.label;
                serial = h.serial;
                source = h.source;
                inventory = some inv;
              }
              ∷ []
        ]
      ]

  unfoldable pub sources : S → List HsmSummary → Fallible (List Source)
  sources s [] = done []
  sources s (h ∷ rest) =
      let later = sources s rest in
      q.latest_scan h.hsm.id s >>= λ rec. later >>= λ l. done (source_of h.hsm rec ++ l)

  unfoldable pub shared_keys : S → Fallible (List SharedKey)
  shared_keys s = q.list_hsms s >>= λ l. sources s l >>= λ l'. done (SharedKeys.detect l')

  unfoldable pub refresh_shared_keys : State S → State S
  refresh_shared_keys st = elim (shared_keys st.db) [
    | failed e ↦ st
    | done l ↦ record st { shared_private_keys = length l }
  ]

  abbrev pub drift_hsm : ℕ → TokenInfo → String → DriftHsm
  drift_hsm id t source = record {
    id = id;
    serial = t.serial_number;
    label = t.label;
    source = source;
  }

  abbrev pub post : Payload → List Payload
  post p = if webhook then p ∷ [] else []

  abbrev pub told_regression :
      ℕ → TokenInfo → String → Regression → String → Fallible ℕ × S → State S → State S
  told_regression hsm_id t source reg detail (failed e, s) st = record st { db = s }
  told_regression hsm_id t source reg detail (done id, s) st = record st {
    db = s;
    regressions = st.regressions + 1;
    posts =
        st.posts
        ++ post (regression_payload (drift_hsm hsm_id t source) now reg.score_delta detail);
    mails =
        st.mails
        ++ notify_regression fmt st.notifier (record {
          hsm_id = pos hsm_id;
          serial = t.serial_number;
          label = t.label;
          source = source;
          score_delta = reg.score_delta;
          reasons = reg.reasons;
        });
  }

  unfoldable pub check_regression :
      ℕ → TokenInfo → String → ScanRecord → ℕ → Report → Report → State S → State S
  check_regression hsm_id t source prev new_id rep prev_rep st =
      elim (detect prev.score rep.score prev_rep.findings rep.findings (pos 0)) [
        | none ↦ st
        | some reg ↦ elim (json.encode_regression reg) [
          | failed e ↦ st
          | done detail ↦
              told_regression hsm_id t source reg detail
                (q.insert_regression_event
                  (record {
                    id = 0;
                    hsm_id = hsm_id;
                    detected_at = now;
                    old_scan_id = prev.id;
                    new_scan_id = new_id;
                    score_delta = reg.score_delta;
                    detail = detail;
                  })
                  st.db)
                st
        ]
      ]

  abbrev pub told_drift :
      ℕ → TokenInfo → String → Diff → String → Fallible ℕ × S → State S → State S
  told_drift hsm_id t source d blob (failed e, s) st = record st { db = s }
  told_drift hsm_id t source d blob (done id, s) st = record st {
    db = s;
    posts = st.posts ++ post (drift_payload (drift_hsm hsm_id t source) now (count d) blob);
    mails =
        st.mails
        ++ notify_drift fmt st.notifier (record {
          hsm_id = pos hsm_id;
          serial = t.serial_number;
          label = t.label;
          source = source;
          changes = pos (count d);
          summary = drift_summary d;
        });
  }

  unfoldable pub check_drift : ℕ → TokenInfo → String → ScanRecord → ℕ → Diff → State S → State S
  check_drift hsm_id t source prev new_id d st = if empty d then st else elim (json.encode_diff d) [
    | failed e ↦ st
    | done blob ↦
        told_drift hsm_id t source d blob
          (q.insert_drift_event
            (record {
              id = 0;
              hsm_id = hsm_id;
              detected_at = now;
              old_scan_id = prev.id;
              new_scan_id = new_id;
              changes = count d;
              diff = blob;
            })
            st.db)
          st
  ]

  -- The part after the scan is stored.
  unfoldable pub compare_previous :
      ℕ → Inventory → TokenInfo → String → Report → Option ScanRecord → ℕ → State S → State S
  compare_previous hsm_id inv t source rep none new_id st = st
  compare_previous hsm_id inv t source rep (some prev) new_id st =
      elim (json.decode_report prev.report) [
        | failed e ↦ st
        | done prev_rep ↦ elim prev_rep.inventory [
          | none ↦ st
          | some prev_inv ↦
              check_drift hsm_id t source prev new_id (compare fmt prev_inv inv)
                (check_regression hsm_id t source prev new_id rep prev_rep st)
        ]
      ]

  abbrev previous : Fallible (Option ScanRecord) → Option ScanRecord
  previous (failed e) = none
  previous (done prev) = prev

  abbrev pub noted : ℕ → Inventory → State S → State S
  noted hsm_id inv st =
      let (mails, s, notifier) =
        notify_expiry q.mark_notified fmt now hsm_id inv st.notifier st.db in
      record st { db = s; notifier = notifier; mails = st.mails ++ mails }

  unfoldable pub store_scan : ℕ → Inventory → TokenInfo → String → Report → State S → State S
  store_scan hsm_id inv t source rep st =
      let prev = previous (q.latest_scan hsm_id st.db) in
      elim (json.encode_report rep) [
        | failed e ↦ st
        | done blob ↦
            let (r, s) = q.insert_scan (scan_of hsm_id inv rep blob) st.db in
            elim r [
              | failed e ↦ record st { db = s }
              | done new_id ↦
                  compare_previous hsm_id inv t source rep prev new_id
                    (refresh_shared_keys (record st { db = s }))
            ]
      ]

  unfoldable pub persist_token : Inventory → TokenInfo → String → Report → State S → State S
  persist_token inv t source rep st =
      let (r, s) = q.upsert_hsm now (hsm_of inv t source) st.db in
      let st' = record st { db = s } in
      elim r [
        | failed e ↦ st'
        | done hsm_id ↦ store_scan hsm_id inv t source rep (noted hsm_id inv st')
      ]

  -- `persistScan`, where there is a store.
  unfoldable pub persist_scan : Report → String → State S → State S
  persist_scan rep source st = elim rep.inventory [
    | none ↦ st
    | some inv ↦ elim inv.slot.token [
      | none ↦ st
      | some t ↦ if t.serial_number == "" then st else persist_token inv t source rep st
    ]
  ]
