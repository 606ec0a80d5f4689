-- ===== src/Store/Events.antt =====
-- internal/store/sqlite.go: the fleet listing, the events, the agents and the ledger of
-- notifications.
use hsm_doctor.Base.{
  ℕ, ◌+◌, String, Bool, true, false, Option, none, some, List, [], ◌∷◌, ◌++◌, ◌&&◌, ◌||◌, ◌==◌, eqb,
  if◌then◌else◌, keep, any, map,
}
use hsm_doctor.Base.Int.{ℤ}
use hsm_doctor.Base.Sort.{sort_by}
use hsm_doctor.Base.Text.{str_lt}
use hsm_doctor.Base.Clock.{Time}
use hsm_doctor.Notify.Expiry.{Entry}
use hsm_doctor.Notify.Once.{same_entry}
use hsm_doctor.Store.{
  Hsm, ScanRecord, DriftEvent, RegressionEvent, Agent, Db, known_hsm, newer, take, limit_of, head,
  latest_scan,
}

pub record HsmSummary : Type 0 where
  pub hsm : Hsm
  -- the id, the score and the time of the latest scan
  pub latest : Option (ℕ × ℤ × Time)

abbrev latest_of : Option ScanRecord → Option (ℕ × ℤ × Time)
latest_of none = none
latest_of (some r) = some (r.id, r.score, r.taken_at)

-- `ORDER BY h.label, h.serial`
abbrev pub by_label : HsmSummary → HsmSummary → Bool
by_label a b =
    str_lt a.hsm.label b.hsm.label || a.hsm.label == b.hsm.label && str_lt a.hsm.serial b.hsm.serial

unfoldable pub list_hsms : Db → List HsmSummary
list_hsms db =
    sort_by by_label
      (map (λ (h : Hsm). record { hsm = h; latest = latest_of (latest_scan h.id db) }) db.hsms)

unfoldable pub insert_drift_event : DriftEvent → Db → Option ℕ × Db
insert_drift_event e db =
    if known_hsm e.hsm_id db
    then (
      some db.next_drift,
      record db {
        drift_events = db.drift_events ++ record e { id = db.next_drift } ∷ [];
        next_drift = db.next_drift + 1;
      },
    )
    else (none, db)

unfoldable pub list_drift_events : ℕ → ℤ → Db → List DriftEvent
list_drift_events hsm_id limit db = take (limit_of limit) (
    sort_by (λ (a b : DriftEvent). newer (a.detected_at, a.id) (b.detected_at, b.id))
      (keep (λ (e : DriftEvent). eqb e.hsm_id hsm_id) db.drift_events))

unfoldable pub insert_regression_event : RegressionEvent → Db → Option ℕ × Db
insert_regression_event e db =
    if known_hsm e.hsm_id db
    then (
      some db.next_regression,
      record db {
        regression_events = db.regression_events ++ record e { id = db.next_regression } ∷ [];
        next_regression = db.next_regression + 1;
      },
    )
    else (none, db)

unfoldable pub list_regression_events : ℕ → ℤ → Db → List RegressionEvent
list_regression_events hsm_id limit db = take (limit_of limit) (
    sort_by (λ (a b : RegressionEvent). newer (a.detected_at, a.id) (b.detected_at, b.id))
      (keep (λ (e : RegressionEvent). eqb e.hsm_id hsm_id) db.regression_events))

-- The time of a notification is written and never read, and left out.
unfoldable pub mark_notified : Entry → Db → Bool × Db
mark_notified e db =
    if any (same_entry e) db.notifications
    then (false, db)
    else (true, record db { notifications = db.notifications ++ e ∷ [] })

unfoldable pub rotate : Time → String → String → List Agent → List Agent
rotate now name hash [] = []
rotate now name hash (a ∷ rest) =
    if a.name == name
    then record a { token_hash = hash; last_seen = now } ∷ rest
    else a ∷ rotate now name hash rest

unfoldable pub find_agent : String → List Agent → Option ℕ
find_agent name [] = none
find_agent name (a ∷ rest) = if a.name == name then some a.id else find_agent name rest

unfoldable pub upsert_agent : Time → String → String → Db → ℕ × Db
upsert_agent now name hash db = elim (find_agent name db.agents) [
  | some id ↦ (id, record db { agents = rotate now name hash db.agents })
  | none ↦ (
    db.next_agent,
    record db {
      agents =
          db.agents
          ++ record {
            id = db.next_agent;
            name = name;
            token_hash = hash;
            created_at = now;
            last_seen = now;
          }
            ∷ [];
      next_agent = db.next_agent + 1;
    },
  )
]

-- The index on the hash gives the row with the lowest id first.
unfoldable pub get_agent_by_token_hash : String → Db → Option Agent
get_agent_by_token_hash hash db = head (keep (λ (a : Agent). a.token_hash == hash) db.agents)

abbrev touched : Time → ℕ → Agent → Agent
touched now id a = if eqb a.id id then record a { last_seen = now } else a

unfoldable pub touch_agent : Time → ℕ → Db → Db
touch_agent now id db = record db { agents = map (touched now id) db.agents }

unfoldable pub list_agents : Db → List Agent
list_agents db = sort_by (λ (a b : Agent). str_lt a.name b.name) db.agents
