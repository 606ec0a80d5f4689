-- ===== src/Server/History/Answers.antt =====
-- internal/server/history.go over internal/store: what the handlers of the history answer.
use hsm_doctor.Base.{
  ℕ, zero, suc, ◌<◌, String, ◌≡◌, refl, ◌⊎◌, inl, inr, Bool, true, false, none, some, List, [], ◌∷◌,
  ◌&&◌, eqb, keep, arith, All, All-map, Bool-cases, Option-cases, Elem,
}
use hsm_doctor.Base.Int.{pos, negsuc}
use hsm_doctor.Base.Fallible.{done}
use hsm_doctor.Store
use hsm_doctor.Store.{Db, ScanRecord}
use hsm_doctor.Store.Events
use hsm_doctor.Server.History.{
  Reading, Reply, ok, error, parse_int, id_from_path, with_id, with_store, handle_hsm_scan,
}

unfoldable pub db_reading : Reading Db
db_reading = record {
  list_hsms = λ db. done (Events.list_hsms db);
  get_hsm = λ id db. done (Store.get_hsm id db);
  list_scans = λ id limit db. done (Store.list_scans id limit db);
  get_scan = λ id scan db. done (Store.get_scan id scan db);
  list_drift_events = λ id limit db. done (Events.list_drift_events id limit db);
  list_regression_events = λ id limit db. done (Events.list_regression_events id limit db);
}

-- The segment of the path is a number above 0.
abbrev pub IsId : String → ℕ → Type 0
IsId text n = (parse_int text ≡ some (pos n)) × (0 < n)

id_from_path_cases :
    (text : String)
    → ((id_from_path text ≡ none) × ((n : ℕ) → ¬ (IsId text n)))
      ⊎ (n : ℕ) × (id_from_path text ≡ some n) × IsId text n
unfolding id_from_path
id_from_path_cases text = elim (Option-cases (parse_int text)) [
  | inl e ↦ inl (rw (id_from_path, e) refl, λ n (h, _). cc)
  | inr (pos zero, e) ↦ inl (rw (id_from_path, e) refl, λ n (h, l). ground arith)
  | inr (pos (suc m), e) ↦ inr (suc m, rw (id_from_path, e) (ground arith), (e, omega arith))
  | inr (negsuc m, e) ↦ inl (rw (id_from_path, e) (ground arith), λ n (h, l). cc)
]

head-keep_cases :
    {A : Type 0} (p : A → Bool) (l : List A)
    → ((Store.head (keep p l) ≡ none) × All (λ a. p a ≡ false) l)
      ⊎ (a : A) × (Store.head (keep p l) ≡ some a) × Elem a l × (p a ≡ true)
head-keep_cases p [] = inl (refl, tt)
head-keep_cases p (x ∷ l) = elim (Bool-cases (p x)) [
  | inl e ↦ rw e (inr (x, refl, inl refl, e))
  | inr e ↦ rw e (elim (head-keep_cases p l) [
    | inl (n, a) ↦ inl (n, (refl, a))
    | inr (a, n, m, t) ↦ inr (a, n, inr m, t)
  ])
]

-- The scan has this id and is of this module.
abbrev pub IsScan : ℕ → ℕ → ScanRecord → Type 0
IsScan hsm_id id scan = (scan.id ≡ id) × (scan.hsm_id ≡ hsm_id)

abbrev pub Answered : String → String → Db → Reply ScanRecord → Type 0
Answered id scan_id db r =
    (((n : ℕ) → ¬ (IsId id n)) ⊎ ((n : ℕ) → ¬ (IsId scan_id n))) × (r ≡ error 400)
    ⊎ (n : ℕ) × (m : ℕ) × IsId id n
      × IsId scan_id m
      × ((r ≡ error 404) × All (λ scan. ¬ (IsScan n m scan)) db.scans
          ⊎ (scan : ScanRecord) × (r ≡ ok scan) × Elem scan db.scans × IsScan n m scan)

-- A request for a scan is answered with 400 where a part of its path is no number above 0. Otherwise
-- it is answered with 404 where no stored scan has the second number as its id and the first as that
-- of its module, and with such a scan where there is one.
pub handle_hsm_scan_cases :
    (id scan_id : String) (db : Db)
    → Answered id scan_id db (handle_hsm_scan db_reading id scan_id (some db))
unfolding handle_hsm_scan db_reading Store.get_scan with_id with_store
handle_hsm_scan_cases id scan_id db = elim (id_from_path_cases id) [
  | inl (e, none_is) ↦ inl (inl none_is, rw (handle_hsm_scan, with_id, e) refl)
  | inr (n, e, first) ↦ elim (id_from_path_cases scan_id) [
    | inl (f, none_is) ↦ inl (inr none_is, rw (handle_hsm_scan, with_id, e, with_id, f) refl)
    | inr (m, f, second) ↦
        let is_it : ScanRecord → Bool = λ r. eqb r.id m && eqb r.hsm_id n in
        inr (
          n,
          m,
          first,
          second,
          elim (head-keep_cases is_it db.scans) [
            | inl (g, a) ↦ inl (
              rw (handle_hsm_scan, with_id, e, with_id, f, g) refl,
              All-map db.scans (λ r h (p, q). ground arith) a,
            )
            | inr (scan, g, x, t) ↦ inr (
              scan,
              rw (handle_hsm_scan, with_id, e, with_id, f, g) refl,
              x,
              (ground arith, ground arith),
            )
          ],
        )
  ]
]
