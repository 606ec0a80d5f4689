-- ===== src/Store/Valid/Hsms.antt =====
-- internal/store: the table of modules keeps what the schema promises.
use hsm_doctor.Base.{
  ℕ, ◌+◌, ◌<◌, String, ◌≡◌, refl, ◌∙◌, inl, inr, Bool, true, false, none, List, [], ◌∷◌, ◌++◌, ◌&&◌,
  ◌==◌, eqb, any, All, All-map, arith, eq_iff, Bool-cases, Option-cases,
}
use hsm_doctor.Base.Clock.{Time}
use hsm_doctor.Store.{
  Hsm, ScanRecord, DriftEvent, RegressionEvent, Db, same_hsm, refresh, find_hsm, fresh_hsm,
  upsert_hsm, known_hsm,
}
use hsm_doctor.Store.Valid.{Apart, IsTable, IsValid, Apart-append, insert-IsTable}

-- A refreshed row keeps its id, its serial number and its source.
refresh-All :
    (P : ℕ → String → String → Type 0) (now : Time) (h : Hsm) (rows : List Hsm)
    → All (λ (g : Hsm). P g.id g.serial g.source) rows
    → All (λ (g : Hsm). P g.id g.serial g.source) (refresh now h rows)
unfolding refresh
refresh-All P now h [] a = tt
refresh-All P now h (row ∷ rows) (p, a) = elim (Bool-cases (same_hsm h row)) [
  | inl e ↦ rw e (p, a)
  | inr e ↦ rw e (p, refresh-All P now h rows a)
]

refresh-Apart :
    (r : ℕ × String × String → ℕ × String × String → Bool) (now : Time) (h : Hsm) (rows : List Hsm)
    → Apart (λ (f g : Hsm). r (f.id, f.serial, f.source) (g.id, g.serial, g.source)) rows
    → Apart
        (λ (f g : Hsm). r (f.id, f.serial, f.source) (g.id, g.serial, g.source))
        (refresh now h rows)
unfolding refresh
refresh-Apart r now h [] a = tt
refresh-Apart r now h (row ∷ rows) (p, a) = elim (Bool-cases (same_hsm h row)) [
  | inl e ↦ rw e (p, a)
  | inr e ↦ rw e (
    refresh-All (λ i s t. r (row.id, row.serial, row.source) (i, s, t) ≡ false) now h rows p,
    refresh-Apart r now h rows a,
  )
]

pub refresh-known :
    (id : ℕ) (now : Time) (h : Hsm) (rows : List Hsm)
    → any (λ (g : Hsm). eqb g.id id) (refresh now h rows) ≡ any (λ (g : Hsm). eqb g.id id) rows
unfolding refresh
refresh-known id now h [] = refl
refresh-known id now h (row ∷ rows) = elim (Bool-cases (same_hsm h row)) [
  | inl e ↦ rw e refl
  | inr e ↦ rw (e, refresh-known id now h rows) refl
]

append-known :
    (id : ℕ) (rows : List Hsm) (z : Hsm)
    → any (λ (g : Hsm). eqb g.id id) rows ≡ true
    → any (λ (g : Hsm). eqb g.id id) (rows ++ z ∷ []) ≡ true
append-known id [] z e = cc
append-known id (row ∷ rows) z e = ground (arith, append-known id rows z)

pub find_hsm-none :
    (now : Time) (id : ℕ) (h : Hsm) (rows : List Hsm)
    → find_hsm h rows ≡ none
    → All (λ (g : Hsm). same_hsm g (fresh_hsm now id h) ≡ false) rows
unfolding find_hsm
find_hsm-none now id h [] e = tt
find_hsm-none now id h (row ∷ rows) e = ground (
  arith,
  find_hsm-none now id h rows,
  eq_iff row.serial h.serial,
  eq_iff h.serial row.serial,
  eq_iff row.source h.source,
  eq_iff h.source row.source,
)

module _ {A : Type 0} (f : A → ℕ) (rows : List A) (db : Db) (db' : Db)
    (keeps : (id : ℕ) → known_hsm id db ≡ true → known_hsm id db' ≡ true) where
  refers : All (λ x. known_hsm (f x) db ≡ true) rows → All (λ x. known_hsm (f x) db' ≡ true) rows
  refers = All-map rows (λ x. keeps (f x))

refreshed-IsValid :
    (now : Time) (h : Hsm) (db : Db)
    → IsValid db
    → IsValid (record db { hsms = refresh now h db.hsms })
refreshed-IsValid now h db v =
    let db' : Db = record db { hsms = refresh now h db.hsms } in
    let keeps : (id : ℕ) → known_hsm id db ≡ true → known_hsm id db' ≡ true =
      λ id p. refresh-known id now h db.hsms ∙ p in
    let t : IsTable (λ (g : Hsm). g.id) db.next_hsm (refresh now h db.hsms) = record {
      below = refresh-All (λ i s t. i < db.next_hsm) now h db.hsms v.hsm_table.below;
      distinct = refresh-Apart (λ f g. eqb f.0 g.0) now h db.hsms v.hsm_table.distinct;
    } in
    let u = refresh-Apart (λ f g. g.1 == f.1 && g.2 == f.2) now h db.hsms v.hsm_unique in
    record {
      hsm_table = t;
      hsm_unique = u;
      scan_table = v.scan_table;
      scan_hsm = refers (λ (s : ScanRecord). s.hsm_id) db.scans db db' keeps v.scan_hsm;
      drift_table = v.drift_table;
      drift_hsm = refers (λ (e : DriftEvent). e.hsm_id) db.drift_events db db' keeps v.drift_hsm;
      regression_table = v.regression_table;
      regression_hsm =
          refers (λ (e : RegressionEvent). e.hsm_id) db.regression_events db db' keeps
            v.regression_hsm;
      agent_table = v.agent_table;
      agent_unique = v.agent_unique;
      notified_once = v.notified_once;
    }

inserted-IsValid :
    (now : Time) (h : Hsm) (db : Db)
    → find_hsm h db.hsms ≡ none
    → IsValid db
    → IsValid (record db {
      hsms = db.hsms ++ fresh_hsm now db.next_hsm h ∷ [];
      next_hsm = db.next_hsm + 1;
    })
inserted-IsValid now h db e v =
    let z = fresh_hsm now db.next_hsm h in
    let db' : Db = record db { hsms = db.hsms ++ z ∷ []; next_hsm = db.next_hsm + 1 } in
    let keeps : (id : ℕ) → known_hsm id db ≡ true → known_hsm id db' ≡ true =
      λ id p. append-known id db.hsms z p in
    record {
      hsm_table = insert-IsTable (λ (g : Hsm). g.id) db.next_hsm db.hsms z v.hsm_table refl;
      hsm_unique =
          Apart-append same_hsm db.hsms z v.hsm_unique (find_hsm-none now db.next_hsm h db.hsms e);
      scan_table = v.scan_table;
      scan_hsm = refers (λ (s : ScanRecord). s.hsm_id) db.scans db db' keeps v.scan_hsm;
      drift_table = v.drift_table;
      drift_hsm = refers (λ (e : DriftEvent). e.hsm_id) db.drift_events db db' keeps v.drift_hsm;
      regression_table = v.regression_table;
      regression_hsm =
          refers (λ (e : RegressionEvent). e.hsm_id) db.regression_events db db' keeps
            v.regression_hsm;
      agent_table = v.agent_table;
      agent_unique = v.agent_unique;
      notified_once = v.notified_once;
    }

pub upsert_hsm-IsValid :
    (now : Time) (h : Hsm) (db : Db) → IsValid db → IsValid (upsert_hsm now h db).1
unfolding upsert_hsm
upsert_hsm-IsValid now h db v = elim (Option-cases (find_hsm h db.hsms)) [
  | inl e ↦ rw (e, upsert_hsm) (inserted-IsValid now h db e v)
  | inr (id, e) ↦ rw (e, upsert_hsm) (refreshed-IsValid now h db v)
]
