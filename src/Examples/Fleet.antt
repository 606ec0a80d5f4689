-- ===== src/Examples/Fleet.antt =====
-- internal/store and internal/server: the theorems at a small fleet.
use hsm_doctor.Base.{◌≢◌, ℕ, ◌≡◌, refl, none, some, [], ◌∷◌, eqb, if◌then◌else◌}
use hsm_doctor.Base.Int.{pos}
use hsm_doctor.Notify.{Config, CertInfo}
use hsm_doctor.Notify.Expiry.{Entry, notify_cert_expiry}
use hsm_doctor.Notify.Once.{notify_cert_expiry-once}
use hsm_doctor.Store.{
  Hsm, ScanRecord, Db, empty_db, upsert_hsm, find_hsm, get_hsm, insert_scan, latest_scan,
}
use hsm_doctor.Store.Events.{mark_notified}
use hsm_doctor.Store.Valid.{IsValid}
use hsm_doctor.Store.Valid.Steps.{hsm, scan, Reach, start, next, Reach-IsValid}
use hsm_doctor.Store.Upsert.{IsRowAfter, upsert_hsm-get_hsm}
use hsm_doctor.Store.Listing.{insert_scan-latest_scan}
use hsm_doctor.Store.Notified.{db_ledger}
use hsm_doctor.Examples.Fixtures.{fmt}

abbrev pub box : Hsm
box = record {
  id = 0;
  serial = "S1";
  label = "prod";
  model = "Luna";
  manufacturer = "T";
  firmware = "7.8";
  module_path = "/lib/p11.so";
  slot_id = 1;
  source = "local";
  first_seen = pos 0;
  last_seen = pos 0;
}

abbrev pub scan_at : ℕ → ScanRecord
scan_at t = record {
  id = 0;
  hsm_id = 1;
  taken_at = pos t;
  score = pos 90;
  critical = 0;
  high = 1;
  medium = 0;
  low = 0;
  private_keys = 1;
  public_keys = 0;
  secret_keys = 0;
  certificates = 1;
  report = "{}";
}

abbrev expiry_entry : Entry
expiry_entry = record { hsm_id = pos 1; kind = "cert-expiry"; ref = "web"; threshold = pos 14 }

abbrev db_hsm : Db
db_hsm = (upsert_hsm (pos 5) box empty_db).1

abbrev pub db_scan : Db
db_scan = (insert_scan (scan_at 10) db_hsm).1

abbrev db_noted : Db
db_noted = (mark_notified expiry_entry db_scan).1

db_scan-Reach : Reach db_scan
db_scan-Reach = next (next start (hsm (pos 5) box)) (scan (scan_at 10))

pub db_scan-IsValid : IsValid db_scan
db_scan-IsValid = Reach-IsValid db_scan-Reach

upsert_hsm-get_hsm_example :
    let (id, db') = upsert_hsm (pos 9) box db_scan in
    ((row : Hsm) × (get_hsm id db' ≡ some row) × IsRowAfter (pos 9) box db_scan id row)
    × ((other : ℕ) → other ≢ id → get_hsm other db' ≡ get_hsm other db_scan)
    × ((upsert_hsm (pos 12) box db').0 ≡ id)
upsert_hsm-get_hsm_example = upsert_hsm-get_hsm (pos 9) (pos 12) box db_scan db_scan-IsValid

insert_scan-latest_scan_example :
    let (id, db') = insert_scan (scan_at 20) db_scan in
    (id ≡ some db_scan.next_scan)
    × (latest_scan 1 db' ≡ (
        if eqb 1 1
        then some (record (scan_at 20) { id = db_scan.next_scan })
        else latest_scan 1 db_scan))
unfolding upsert_hsm find_hsm insert_scan
insert_scan-latest_scan_example =
    insert_scan-latest_scan (scan_at 20) 1 db_scan db_scan-IsValid refl (refl, tt)

abbrev mail_config : Config
mail_config = record {
  smtp = record {
    host = "mail";
    port = pos 587;
    username = "";
    password = "";
    from_address = "hsm@example.com";
    to = "ops@example.com" ∷ [];
    tls = "starttls";
  };
  drift = none;
  regression = none;
  cert_expiry = none;
  cert_warn_days = [];
}

abbrev web_notice : CertInfo
web_notice = record { label = "web"; subject = "CN=web"; days_left = pos 10; not_after = pos 99 }

notify_cert_expiry-once_example :
    let (mails, s', cfg') =
      notify_cert_expiry db_ledger.mark fmt
        (some mail_config)
        (pos 1)
        "prod"
        (web_notice ∷ [])
        db_scan in
    (notify_cert_expiry db_ledger.mark fmt cfg' (pos 1) "prod" (web_notice ∷ []) s').0 ≡ []
notify_cert_expiry-once_example =
    notify_cert_expiry-once db_ledger fmt mail_config (pos 1) "prod" (web_notice ∷ []) db_scan
