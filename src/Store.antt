-- ===== src/Store.antt =====
-- internal/store/store.go and internal/store/sqlite.go: the tables, and each query as a function on
-- them. A table lists its rows in the order of their ids, which are drawn from a counter as
-- AUTOINCREMENT does. The clock is an argument; a query that violates a foreign key is `none`.
pub mod Events
pub mod Listing
pub mod Valid
pub mod Upsert
pub mod Notified
use hsm_doctor.Base.{
  ℕ, zero, suc, ◌+◌, String, Bool, Option, none, some, List, [], ◌∷◌, ◌++◌, ◌&&◌, ◌||◌, ◌==◌, eqb,
  ltb, if◌then◌else◌, keep, any, map,
}
use hsm_doctor.Base.Int.{ℤ, pos, pos_part, ltb_ℤ, leb_ℤ, eq_ℤ}
use hsm_doctor.Base.Sort.{sort_by}
use hsm_doctor.Base.Clock.{Time}
use hsm_doctor.Notify.Expiry.{Entry}

pub record Hsm : Type 0 where
  pub id : ℕ
  pub serial : String
  pub label : String
  pub model : String
  pub manufacturer : String
  pub firmware : String
  pub module_path : String
  pub slot_id : ℕ
  pub source : String
  pub first_seen : Time
  pub last_seen : Time

-- An empty `report` is a nil blob.
pub record ScanRecord : Type 0 where
  pub id : ℕ
  pub hsm_id : ℕ
  pub taken_at : Time
  pub score : ℤ
  pub critical : ℕ
  pub high : ℕ
  pub medium : ℕ
  pub low : ℕ
  pub private_keys : ℕ
  pub public_keys : ℕ
  pub secret_keys : ℕ
  pub certificates : ℕ
  pub report : String

pub record DriftEvent : Type 0 where
  pub id : ℕ
  pub hsm_id : ℕ
  pub detected_at : Time
  pub old_scan_id : ℕ
  pub new_scan_id : ℕ
  pub changes : ℕ
  pub diff : String

pub record RegressionEvent : Type 0 where
  pub id : ℕ
  pub hsm_id : ℕ
  pub detected_at : Time
  pub old_scan_id : ℕ
  pub new_scan_id : ℕ
  pub score_delta : ℤ
  pub detail : String

pub record Agent : Type 0 where
  pub id : ℕ
  pub name : String
  pub token_hash : String
  pub created_at : Time
  pub last_seen : Time

pub record Db : Type 0 where
  pub hsms : List Hsm
  pub scans : List ScanRecord
  pub drift_events : List DriftEvent
  pub regression_events : List RegressionEvent
  pub agents : List Agent
  pub notifications : List Entry
  pub next_hsm : ℕ
  pub next_scan : ℕ
  pub next_drift : ℕ
  pub next_regression : ℕ
  pub next_agent : ℕ

abbrev pub empty_db : Db
empty_db = record {
  hsms = [];
  scans = [];
  drift_events = [];
  regression_events = [];
  agents = [];
  notifications = [];
  next_hsm = 1;
  next_scan = 1;
  next_drift = 1;
  next_regression = 1;
  next_agent = 1;
}

-- `UNIQUE (serial, source)`
abbrev pub same_hsm : Hsm → Hsm → Bool
same_hsm h g = g.serial == h.serial && g.source == h.source

-- `DO UPDATE SET`: the id and the first sight stay.
abbrev pub refreshed : Time → Hsm → Hsm → Hsm
refreshed now h row = record row {
  label = h.label;
  model = h.model;
  manufacturer = h.manufacturer;
  firmware = h.firmware;
  module_path = h.module_path;
  slot_id = h.slot_id;
  last_seen = now;
}

unfoldable pub refresh : Time → Hsm → List Hsm → List Hsm
refresh now h [] = []
refresh now h (row ∷ rest) =
    if same_hsm h row then refreshed now h row ∷ rest else row ∷ refresh now h rest

unfoldable pub find_hsm : Hsm → List Hsm → Option ℕ
find_hsm h [] = none
find_hsm h (row ∷ rest) = if same_hsm h row then some row.id else find_hsm h rest

abbrev pub fresh_hsm : Time → ℕ → Hsm → Hsm
fresh_hsm now id h = record h { id = id; first_seen = now; last_seen = now }

-- The id of the row, and the tables.
unfoldable pub upsert_hsm : Time → Hsm → Db → ℕ × Db
upsert_hsm now h db = elim (find_hsm h db.hsms) [
  | some id ↦ (id, record db { hsms = refresh now h db.hsms })
  | none ↦ (
    db.next_hsm,
    record db { hsms = db.hsms ++ fresh_hsm now db.next_hsm h ∷ []; next_hsm = db.next_hsm + 1 },
  )
]

unfoldable pub hsm_by_id : ℕ → List Hsm → Option Hsm
hsm_by_id id [] = none
hsm_by_id id (row ∷ rest) = if eqb row.id id then some row else hsm_by_id id rest

unfoldable pub get_hsm : ℕ → Db → Option Hsm
get_hsm id db = hsm_by_id id db.hsms

-- `REFERENCES hsms(id)`
abbrev pub known_hsm : ℕ → Db → Bool
known_hsm id db = any (λ (h : Hsm). eqb h.id id) db.hsms

unfoldable pub insert_scan : ScanRecord → Db → Option ℕ × Db
insert_scan rec db =
    if known_hsm rec.hsm_id db
    then (
      some db.next_scan,
      record db {
        scans = db.scans ++ record rec { id = db.next_scan } ∷ [];
        next_scan = db.next_scan + 1;
      },
    )
    else (none, db)

-- `ORDER BY taken_at DESC, id DESC`
abbrev pub newer : Time × ℕ → Time × ℕ → Bool
newer (s, i) (t, j) = ltb_ℤ t s || eq_ℤ t s && ltb j i

abbrev pub newer_scan : ScanRecord → ScanRecord → Bool
newer_scan a b = newer (a.taken_at, a.id) (b.taken_at, b.id)

unfoldable pub take {ℓ} : {A : Type ℓ} → ℕ → List A → List A
take zero xs = []
take (suc n) [] = []
take (suc n) (x ∷ xs) = x ∷ take n xs

-- `LIMIT`, which is 100 where the caller's is not between 1 and 1000.
unfoldable pub limit_of : ℤ → ℕ
limit_of n = if leb_ℤ n (pos 0) || ltb_ℤ (pos 1000) n then 100 else pos_part n

abbrev pub summary : ScanRecord → ScanRecord
summary r = record r { report = "" }

abbrev pub scans_of : ℕ → Db → List ScanRecord
scans_of hsm_id db = keep (λ (r : ScanRecord). eqb r.hsm_id hsm_id) db.scans

unfoldable pub newest_scans : ℕ → Db → List ScanRecord
newest_scans hsm_id db = sort_by newer_scan (scans_of hsm_id db)

unfoldable pub list_scans : ℕ → ℤ → Db → List ScanRecord
list_scans hsm_id limit db = map summary (take (limit_of limit) (newest_scans hsm_id db))

abbrev pub head {ℓ} : {A : Type ℓ} → List A → Option A
head [] = none
head (x ∷ xs) = some x

unfoldable pub get_scan : ℕ → ℕ → Db → Option ScanRecord
get_scan hsm_id scan_id db =
    head (keep (λ (r : ScanRecord). eqb r.id scan_id && eqb r.hsm_id hsm_id) db.scans)

unfoldable pub latest_scan : ℕ → Db → Option ScanRecord
latest_scan hsm_id db = head (newest_scans hsm_id db)
