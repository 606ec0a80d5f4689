-- ===== src/Store/Valid.antt =====
-- internal/store: what the schema promises, and that each query keeps it.
pub mod Agents
pub mod Hsms
pub mod Steps
use hsm_doctor.Base.{
  ℕ, zero, suc, ◌+◌, ◌<◌, ◌≡◌, refl, inl, inr, Bool, true, false, List, [], ◌∷◌, ◌++◌, ◌==◌, eqb,
  any, any_none_iff, All, All-append, All-map, arith, Bool-cases,
}
use hsm_doctor.Notify.Expiry.{Entry}
use hsm_doctor.Notify.Once.{same_entry}
use hsm_doctor.Store.{
  Hsm, ScanRecord, DriftEvent, RegressionEvent, Agent, Db, empty_db, same_hsm, known_hsm,
  insert_scan,
}
use hsm_doctor.Store.Events.{insert_drift_event, insert_regression_event, mark_notified}

-- No two rows are related.
abbrev pub Apart : {A : Type 0} → (A → A → Bool) → List A → Type 0
Apart r [] = Unit
Apart r (x ∷ xs) = All (λ y. r x y ≡ false) xs × Apart r xs

pub Apart-append :
    {A : Type 0} (r : A → A → Bool) (xs : List A) (z : A)
    → Apart r xs
    → All (λ x. r x z ≡ false) xs
    → Apart r (xs ++ z ∷ [])
Apart-append r [] z a h = (tt, tt)
Apart-append r (x ∷ xs) z (p, a) (q, h) =
    (All-append (λ y. r x y ≡ false) xs (z ∷ []) p (q, tt), Apart-append r xs z a h)

-- The rows of a table have ids below its counter, each its own.
pub record IsTable {A : Type 0} (id : A → ℕ) (next : ℕ) (rows : List A) : Type 0 where
  pub below : All (λ x. id x < next) rows
  pub distinct : Apart (λ x y. eqb (id x) (id y)) rows

pub insert-IsTable :
    {A : Type 0} (id : A → ℕ) (next : ℕ) (rows : List A) (z : A)
    → IsTable id next rows
    → id z ≡ next
    → IsTable id (next + 1) (rows ++ z ∷ [])
insert-IsTable id next rows z t e = record {
  below =
      All-append (λ x. id x < next + 1) rows (z ∷ []) (All-map rows (λ x h. omega arith) t.below)
        (omega arith, tt);
  distinct =
      Apart-append (λ x y. eqb (id x) (id y)) rows z t.distinct
        (All-map rows (λ x h. ground arith) t.below);
}

pub record IsValid (db : Db) : Type 0 where
  pub hsm_table : IsTable (λ (h : Hsm). h.id) db.next_hsm db.hsms
  pub hsm_unique : Apart same_hsm db.hsms
  pub scan_table : IsTable (λ (s : ScanRecord). s.id) db.next_scan db.scans
  pub scan_hsm : All (λ (s : ScanRecord). known_hsm s.hsm_id db ≡ true) db.scans
  pub drift_table : IsTable (λ (e : DriftEvent). e.id) db.next_drift db.drift_events
  pub drift_hsm : All (λ (e : DriftEvent). known_hsm e.hsm_id db ≡ true) db.drift_events
  pub regression_table :
      IsTable (λ (e : RegressionEvent). e.id) db.next_regression db.regression_events
  pub regression_hsm :
      All (λ (e : RegressionEvent). known_hsm e.hsm_id db ≡ true) db.regression_events
  pub agent_table : IsTable (λ (a : Agent). a.id) db.next_agent db.agents
  pub agent_unique : Apart (λ (a b : Agent). a.name == b.name) db.agents
  pub notified_once : Apart (λ d e. same_entry e d) db.notifications

pub empty-IsValid : IsValid empty_db
empty-IsValid = record {
  hsm_table = record { below = tt; distinct = tt };
  hsm_unique = tt;
  scan_table = record { below = tt; distinct = tt };
  scan_hsm = tt;
  drift_table = record { below = tt; distinct = tt };
  drift_hsm = tt;
  regression_table = record { below = tt; distinct = tt };
  regression_hsm = tt;
  agent_table = record { below = tt; distinct = tt };
  agent_unique = tt;
  notified_once = tt;
}

-- A row that is appended refers to a module that is there.
pub appended :
    {A : Type 0} (P : A → Type 0) (rows : List A) (z : A)
    → All P rows
    → P z
    → All P (rows ++ z ∷ [])
appended P rows z h p = All-append P rows (z ∷ []) h (p, tt)

pub insert_scan-IsValid : (rec : ScanRecord) (db : Db) → IsValid db → IsValid (insert_scan rec db).1
unfolding insert_scan
insert_scan-IsValid rec db v = elim (Bool-cases (known_hsm rec.hsm_id db)) [
  | inr e ↦ rw e v
  | inl e ↦
      let t =
        insert-IsTable (λ (s : ScanRecord). s.id) db.next_scan db.scans
          (record rec { id = db.next_scan }) v.scan_table refl in
      let h =
        appended (λ (s : ScanRecord). known_hsm s.hsm_id db ≡ true) db.scans
          (record rec { id = db.next_scan }) v.scan_hsm e in
      rw e (ground (arith, t, h))
]

pub insert_drift_event-IsValid :
    (e : DriftEvent) (db : Db) → IsValid db → IsValid (insert_drift_event e db).1
unfolding insert_drift_event
insert_drift_event-IsValid e db v = elim (Bool-cases (known_hsm e.hsm_id db)) [
  | inr p ↦ rw p v
  | inl p ↦
      let z : DriftEvent = record e { id = db.next_drift } in
      let t =
        insert-IsTable (λ (e : DriftEvent). e.id) db.next_drift db.drift_events z v.drift_table
          refl in
      let h =
        appended (λ (e : DriftEvent). known_hsm e.hsm_id db ≡ true) db.drift_events z v.drift_hsm
          p in
      rw p (ground (arith, t, h))
]

pub insert_regression_event-IsValid :
    (e : RegressionEvent) (db : Db) → IsValid db → IsValid (insert_regression_event e db).1
unfolding insert_regression_event
insert_regression_event-IsValid e db v = elim (Bool-cases (known_hsm e.hsm_id db)) [
  | inr p ↦ rw p v
  | inl p ↦
      let z : RegressionEvent = record e { id = db.next_regression } in
      let t =
        insert-IsTable (λ (e : RegressionEvent). e.id) db.next_regression db.regression_events z
          v.regression_table refl in
      let h =
        appended (λ (e : RegressionEvent). known_hsm e.hsm_id db ≡ true) db.regression_events z
          v.regression_hsm p in
      rw p (ground (arith, t, h))
]

pub mark_notified-IsValid : (e : Entry) (db : Db) → IsValid db → IsValid (mark_notified e db).1
unfolding mark_notified
mark_notified-IsValid e db v = elim (Bool-cases (any (same_entry e) db.notifications)) [
  | inl p ↦ rw p v
  | inr p ↦
      let t =
        Apart-append (λ c d. same_entry d c) db.notifications e v.notified_once
          ((any_none_iff (same_entry e) db.notifications).0 p) in
      rw p (ground (arith, t))
]
