-- ===== src/Store/Listing.antt =====
-- internal/store: the scans of a module, newest first.
use mathlib.Core.Path.{subst}
use mathlib.Core.List.{append-nil}
use hsm_doctor.Base.{
  ℕ, zero, suc, ◌≤◌, ◌<◌, ◌≡◌, refl, ap, inl, inr, Bool, true, false, Option, none, some, List, [],
  ◌∷◌, ◌++◌, eqb, if◌then◌else◌, keep, keep-append, map, length, All, arith, Bool-cases,
}
use hsm_doctor.Base.Int.{ℤ, leb_ℤ}
use hsm_doctor.Base.Sort.{sort_by, insert_by, IsSorted, IsOrder, sort_by-IsSorted}
use hsm_doctor.Store.{
  ScanRecord, Db, known_hsm, insert_scan, newer_scan, take, limit_of, summary, scans_of,
  newest_scans, list_scans, head, latest_scan,
}
use hsm_doctor.Store.Valid.{IsValid}

newer_scan-IsOrder : IsOrder newer_scan
newer_scan-IsOrder = record { asymm = λ a b e. ground arith; trans = λ a b c e f. ground arith }

-- An element that comes before all others and stands last.
sort_by-last :
    {A : Type 0} (less : A → A → Bool) (xs : List A) (z : A)
    → All (λ x. less z x ≡ true) xs
    → All (λ x. less x z ≡ false) xs
    → sort_by less (xs ++ z ∷ []) ≡ z ∷ sort_by less xs
unfolding sort_by insert_by
sort_by-last less [] z h g = refl
sort_by-last less (x ∷ xs) z (p, h) (q, g) = rw (sort_by-last less xs z h g, p) refl

length-take : {A : Type 0} (n : ℕ) (xs : List A) → length (take n xs) ≤ n
unfolding take
length-take zero xs = omega arith
length-take (suc n) [] = omega arith
length-take (suc n) (x ∷ xs) = omega (arith, length-take n xs)

take-All : {A : Type 0} (P : A → Type 0) (n : ℕ) (xs : List A) → All P xs → All P (take n xs)
unfolding take
take-All P zero xs h = tt
take-All P (suc n) [] h = tt
take-All P (suc n) (x ∷ xs) (p, h) = (p, take-All P n xs h)

length-map : {A B : Type 0} (f : A → B) (xs : List A) → length (map f xs) ≡ length xs
length-map f [] = refl
length-map f (x ∷ xs) = ap suc (length-map f xs)

IsSorted-summaries :
    (n : ℕ) (xs : List ScanRecord)
    → IsSorted newer_scan xs
    → IsSorted newer_scan (map summary (take n xs))
unfolding take
IsSorted-summaries zero xs s = tt
IsSorted-summaries (suc n) [] s = tt
IsSorted-summaries (suc n) (x ∷ xs) (h, s) = (below n xs h, IsSorted-summaries n xs s)
  where
    below :
        (n : ℕ) (ys : List ScanRecord)
        → All (λ y. newer_scan y x ≡ false) ys
        → All (λ y. newer_scan y (summary x) ≡ false) (map summary (take n ys))
    below zero ys h = tt
    below (suc n) [] h = tt
    below (suc n) (y ∷ ys) (p, h) = (p, below n ys h)

head-list :
    (n : ℕ) (xs : List ScanRecord)
    → 0 < n
    → head (map summary (take n xs)) ≡ (elim (head xs) [ none ↦ none | some r ↦ some (summary r) ])
unfolding take
head-list zero xs h = absurd (omega arith)
head-list (suc n) [] h = refl
head-list (suc n) (x ∷ xs) h = refl

-- `ListScans` shows at most 1000 scans, whatever limit is asked for, and none before a newer one; the
-- first it shows is the latest scan, without its report.
pub list_scans_lem :
    (hsm_id : ℕ) (limit : ℤ) (db : Db)
    → (length (list_scans hsm_id limit db) ≤ 1000)
      × IsSorted newer_scan (list_scans hsm_id limit db)
      × (head (list_scans hsm_id limit db)
          ≡ (elim (latest_scan hsm_id db) [ none ↦ none | some r ↦ some (summary r) ]))
unfolding list_scans latest_scan newest_scans limit_of
list_scans_lem hsm_id limit db =
    let xs = newest_scans hsm_id db in
    let n = limit_of limit in
    let small : n ≤ 1000 = ground arith in
    (
      omega (arith, length-map summary (take n xs), length-take n xs, small),
      IsSorted-summaries n xs (sort_by-IsSorted newer_scan-IsOrder (scans_of hsm_id db)),
      head-list n xs (ground arith),
    )

last_before_all :
    (hsm_id : ℕ) (z : ScanRecord) (scans : List ScanRecord)
    → All (λ (r : ScanRecord). r.id < z.id) scans
    → let mine = keep (λ (r : ScanRecord). eqb r.hsm_id hsm_id) scans in
      All (λ (r : ScanRecord). leb_ℤ r.taken_at z.taken_at ≡ true) mine
      → All (λ r. newer_scan z r ≡ true) mine × All (λ r. newer_scan r z ≡ false) mine
last_before_all hsm_id z [] b h = (tt, tt)
last_before_all hsm_id z (r ∷ scans) (p, b) h = elim (Bool-cases (eqb r.hsm_id hsm_id)) [
  | inl e ↦
      let g : (leb_ℤ r.taken_at z.taken_at ≡ true)
          × All (λ (r : ScanRecord). leb_ℤ r.taken_at z.taken_at ≡ true)
              (keep (λ (r : ScanRecord). eqb r.hsm_id hsm_id) scans) =
        ground arith in
      let (q, h') = g in
      let (x, y) = last_before_all hsm_id z scans b h' in
      rw e ((ground arith, x), (ground arith, y))
  | inr e ↦ rw e (last_before_all hsm_id z scans b (ground arith))
]

abbrev latest_in : ℕ → List ScanRecord → Option ScanRecord
latest_in hsm_id l = head (sort_by newer_scan (keep (λ (r : ScanRecord). eqb r.hsm_id hsm_id) l))

latest-append :
    (other : ℕ) (z : ScanRecord) (scans : List ScanRecord)
    → All (λ (r : ScanRecord). r.id < z.id) scans
    → All
        (λ (r : ScanRecord). leb_ℤ r.taken_at z.taken_at ≡ true)
        (keep (λ (r : ScanRecord). eqb r.hsm_id z.hsm_id) scans)
    → latest_in other (scans ++ z ∷ [])
      ≡ (if eqb z.hsm_id other then some z else latest_in other scans)
latest-append other z scans b h =
    let a = keep-append (λ (r : ScanRecord). eqb r.hsm_id other) scans (z ∷ []) in
    elim (Bool-cases (eqb z.hsm_id other)) [
      | inr e ↦ rw (a, e, append-nil (keep (λ (r : ScanRecord). eqb r.hsm_id other) scans)) refl
      | inl e ↦
          let o : z.hsm_id ≡ other = ground arith in
          let (x, y) = last_before_all z.hsm_id z scans b h in
          let m = keep (λ (r : ScanRecord). eqb r.hsm_id z.hsm_id) scans in
          subst
            (λ i.
              latest_in i (scans ++ z ∷ [])
              ≡ (if eqb z.hsm_id i then some z else latest_in i scans))
            o
            (ground (
              arith,
              keep-append (λ (r : ScanRecord). eqb r.hsm_id z.hsm_id) scans (z ∷ []),
              sort_by-last newer_scan m z x y,
            ))
    ]

-- In a valid database, a scan of a known module that no stored scan of the module was taken after
-- is the latest one once it is inserted, under the id the insertion returns; the latest scans of
-- the other modules stay.
pub insert_scan-latest_scan :
    (rec : ScanRecord) (other : ℕ) (db : Db)
    → IsValid db
    → known_hsm rec.hsm_id db ≡ true
    → All (λ (r : ScanRecord). leb_ℤ r.taken_at rec.taken_at ≡ true) (scans_of rec.hsm_id db)
    → let (id, db') = insert_scan rec db in
      (id ≡ some db.next_scan)
      × (latest_scan other db' ≡ (
          if eqb rec.hsm_id other
          then some (record rec { id = db.next_scan })
          else latest_scan other db))
unfolding insert_scan latest_scan newest_scans
insert_scan-latest_scan rec other db v k h =
    rw (insert_scan, k)
      (refl, latest-append other (record rec { id = db.next_scan }) db.scans v.scan_table.below h)
