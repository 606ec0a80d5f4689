-- ===== src/Server/Records.antt =====
-- internal/server/history.go, webhook.go and internal/store/store.go: the report of a scan, the record
-- kept of it, and the state that keeping it changes. The store is an interface whose queries may fail,
-- and JSON is a parameter.
use hsm_doctor.Base.{ℕ, ◌+◌, String, Option, List, [], ◌∷◌}
use hsm_doctor.Base.Int.{ℤ, pos}
use hsm_doctor.Base.Clock.{Time}
use hsm_doctor.Base.Fallible.{Fallible}
use hsm_doctor.Inventory.{Inventory, TokenInfo, Counts}
use hsm_doctor.Policy.Severity.{Severity, critical, high, medium, low}
use hsm_doctor.Policy.Evaluate.{Finding}
use hsm_doctor.Snapshot.{Diff}
use hsm_doctor.Regression.{Regression}
use hsm_doctor.Notify.{Config, Mail}
use hsm_doctor.Notify.Expiry.{Mark}
use hsm_doctor.Store.{Hsm, ScanRecord, DriftEvent, RegressionEvent}
use hsm_doctor.Store.Events.{HsmSummary}

pub record Report : Type 0 where
  pub inventory : Option Inventory
  pub score : ℤ
  pub counts : Counts
  pub findings : List Finding

-- The queries of `store.Store` that a scan needs.
pub record Queries (S : Type 0) : Type 0 where
  pub upsert_hsm : Time → Hsm → S → Fallible ℕ × S
  pub list_hsms : S → Fallible (List HsmSummary)
  pub latest_scan : ℕ → S → Fallible (Option ScanRecord)
  pub insert_scan : ScanRecord → S → Fallible ℕ × S
  pub insert_drift_event : DriftEvent → S → Fallible ℕ × S
  pub insert_regression_event : RegressionEvent → S → Fallible ℕ × S
  pub mark_notified : Mark S

pub record Json : Type 0 where
  pub encode_report : Report → Fallible String
  pub decode_report : String → Fallible Report
  pub encode_diff : Diff → Fallible String
  pub encode_regression : Regression → Fallible String

pub record DriftHsm : Type 0 where
  pub id : ℕ
  pub serial : String
  pub label : String
  pub source : String

-- The bodies that the webhook is given to deliver.
pub data Payload : Type 0 where
  drift_payload : DriftHsm → Time → ℕ → String → Payload
  regression_payload : DriftHsm → Time → ℤ → String → Payload

-- The store and the notifier's configuration, what was sent, how often the metric of regressions was
-- raised, and the last value of the gauge of shared keys.
pub record State (S : Type 0) : Type 0 where
  pub db : S
  pub notifier : Option Config
  pub posts : List Payload
  pub mails : List Mail
  pub regressions : ℕ
  pub shared_private_keys : ℕ

abbrev pub hsm_of : Inventory → TokenInfo → String → Hsm
hsm_of inv t source = record {
  id = 0;
  serial = t.serial_number;
  label = t.label;
  model = t.model;
  manufacturer = t.manufacturer;
  firmware = t.firmware_version;
  module_path = inv.module_info.path;
  slot_id = inv.slot.id;
  source = source;
  first_seen = pos 0;
  last_seen = pos 0;
}

abbrev pub counted : Severity → ScanRecord → ScanRecord
counted critical r = record r { critical = r.critical + 1 }
counted high r = record r { high = r.high + 1 }
counted medium r = record r { medium = r.medium + 1 }
counted low r = record r { low = r.low + 1 }
counted _ r = r

unfoldable pub count_findings : ScanRecord → List Finding → ScanRecord
count_findings r [] = r
count_findings r (f ∷ fs) = count_findings (counted f.severity r) fs

abbrev pub scan_of : ℕ → Inventory → Report → String → ScanRecord
scan_of hsm_id inv rep blob =
    count_findings
      (record {
        id = 0;
        hsm_id = hsm_id;
        taken_at = inv.scanned_at;
        score = rep.score;
        critical = 0;
        high = 0;
        medium = 0;
        low = 0;
        private_keys = rep.counts.private_keys;
        public_keys = rep.counts.public_keys;
        secret_keys = rep.counts.secret_keys;
        certificates = rep.counts.certificates;
        report = blob;
      })
      rep.findings
