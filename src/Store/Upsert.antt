-- ===== src/Store/Upsert.antt =====
-- internal/store: what `GetHSM` returns after `UpsertHSM`.
use mathlib.Core.Path.{subst}
use hsm_doctor.Base.{
  ℕ, ◌<◌, ◌≡◌, ◌≢◌, ◌↔◌, ◌⊎◌, refl, sym, inl, inr, true, false, Option, none, some, List, [], ◌∷◌,
  ◌++◌, eqb, All, Elem, arith, eq_iff, Bool-cases, Option-cases, if◌then◌else◌,
}
use hsm_doctor.Base.Clock.{Time}
use hsm_doctor.Store.{
  Hsm, Db, same_hsm, refreshed, refresh, find_hsm, fresh_hsm, upsert_hsm, hsm_by_id, get_hsm,
}
use hsm_doctor.Store.Valid.{IsValid, Apart}

-- What the row of a module becomes: a new one, or the old one with what was seen now.
abbrev row_after : Time → ℕ → Hsm → Option Hsm → Hsm
row_after now id h none = fresh_hsm now id h
row_after now id h (some old) = refreshed now h old

hsm_by_id_id : (id : ℕ) (rows : List Hsm) (old : Hsm) → hsm_by_id id rows ≡ some old → old.id ≡ id
unfolding hsm_by_id
hsm_by_id_id id [] old e = cc
hsm_by_id_id id (row ∷ rows) old e = elim (Bool-cases (eqb row.id id)) [
  | inl s ↦ ground arith
  | inr s ↦ hsm_by_id_id id rows old (ground arith)
]

hsm_by_id-All :
    (P : Hsm → Type 0) (id : ℕ) (rows : List Hsm) (old : Hsm)
    → All P rows
    → hsm_by_id id rows ≡ some old
    → P old
unfolding hsm_by_id
hsm_by_id-All P id [] old a e = cc
hsm_by_id-All P id (row ∷ rows) old (p, a) e = elim (Bool-cases (eqb row.id id)) [
  | inl s ↦ let q : row ≡ old = ground arith in subst P q p
  | inr s ↦ hsm_by_id-All P id rows old a (ground arith)
]

not_same_id :
    (id : ℕ) (row old : Hsm) (rows : List Hsm)
    → All (λ (y : Hsm). eqb row.id y.id ≡ false) rows
    → hsm_by_id id rows ≡ some old
    → eqb row.id id ≡ false
not_same_id id row old rows a e =
    let p = hsm_by_id-All (λ y. eqb row.id y.id ≡ false) id rows old a e in
    subst (λ i. eqb row.id i ≡ false) (hsm_by_id_id id rows old e) p

-- The rows that `refresh` leaves alone.
module _ (now : Time) (h : Hsm) where
  find_some :
      (id : ℕ) (rows : List Hsm)
      → find_hsm h rows ≡ some id
      → Apart (λ (f g : Hsm). eqb f.id g.id) rows
      → (old : Hsm) × (hsm_by_id id rows ≡ some old)
        × (same_hsm h old ≡ true)
        × (hsm_by_id id (refresh now h rows) ≡ some (refreshed now h old))
  unfolding find_hsm hsm_by_id refresh
  find_some id [] e a = cc
  find_some id (row ∷ rows) e (p, a) = elim (Bool-cases (same_hsm h row)) [
    | inl s ↦ (row, ground arith, s, ground arith)
    | inr s ↦
        let (old, q, t, r) = find_some id rows (ground arith) a in
        let n = not_same_id id row old rows p q in (old, rw n q, t, rw (s, n) r)
  ]

  refresh-other :
      (id other : ℕ) (rows : List Hsm)
      → find_hsm h rows ≡ some id
      → eqb id other ≡ false
      → hsm_by_id other (refresh now h rows) ≡ hsm_by_id other rows
  unfolding find_hsm hsm_by_id refresh
  refresh-other id other [] e n = refl
  refresh-other id other (row ∷ rows) e n = elim (Bool-cases (same_hsm h row)) [
    | inl s ↦ let q : row.id ≡ id = ground arith in rw (s, q, n) refl
    | inr s ↦ let r = refresh-other id other rows (ground arith) n in rw s (ground (arith, r))
  ]

  find-refresh : (rows : List Hsm) → find_hsm h (refresh now h rows) ≡ find_hsm h rows
  unfolding find_hsm refresh
  find-refresh [] = refl
  find-refresh (row ∷ rows) = elim (Bool-cases (same_hsm h row)) [
    | inl s ↦ rw (s, s) refl
    | inr s ↦ rw (s, s) (find-refresh rows)
  ]

hsm_by_id-append :
    (id : ℕ) (rows : List Hsm) (z : Hsm)
    → All (λ (y : Hsm). y.id < z.id) rows
    → hsm_by_id id (rows ++ z ∷ []) ≡ (if eqb z.id id then some z else hsm_by_id id rows)
unfolding hsm_by_id
hsm_by_id-append id [] z a = ground arith
hsm_by_id-append id (row ∷ rows) z (p, a) = ground (arith, hsm_by_id-append id rows z a)

find-append :
    (h : Hsm) (rows : List Hsm) (z : Hsm)
    → find_hsm h rows ≡ none
    → same_hsm h z ≡ true
    → find_hsm h (rows ++ z ∷ []) ≡ some z.id
unfolding find_hsm
find-append h [] z e s = rw s refl
find-append h (row ∷ rows) z e s = elim (Bool-cases (same_hsm h row)) [
  | inl t ↦ ground arith
  | inr t ↦ rw t (find-append h rows z (ground arith) s)
]

hsm_by_id-none :
    (id : ℕ) (rows : List Hsm) → All (λ (y : Hsm). y.id < id) rows → hsm_by_id id rows ≡ none
unfolding hsm_by_id
hsm_by_id-none id [] a = refl
hsm_by_id-none id (row ∷ rows) (p, a) = ground (arith, hsm_by_id-none id rows a)

same_hsm_refl : (h : Hsm) → same_hsm h h ≡ true
same_hsm_refl h = ground (arith, eq_iff h.serial h.serial, eq_iff h.source h.source)

upsert_hsm-rows :
    (now later : Time) (h : Hsm) (other : ℕ) (db : Db)
    → IsValid db
    → let (id, db') = upsert_hsm now h db in
      (get_hsm other db'
        ≡ (if eqb id other then some (row_after now id h (get_hsm id db)) else get_hsm other db))
      × ((upsert_hsm later h db').0 ≡ id)
unfolding upsert_hsm get_hsm
upsert_hsm-rows now later h other db v = elim (Option-cases (find_hsm h db.hsms)) [
  | inl e ↦
      let z = fresh_hsm now db.next_hsm h in
      let n = hsm_by_id-none db.next_hsm db.hsms v.hsm_table.below in
      let p = hsm_by_id-append other db.hsms z v.hsm_table.below in
      let q = find-append h db.hsms z e (same_hsm_refl h) in rw (upsert_hsm, e) (rw n p, rw q refl)
  | inr (id, e) ↦
      let (old, n, _, p) = find_some now h id db.hsms e v.hsm_table.distinct in
      rw (upsert_hsm, e)
        (
          elim (Bool-cases (eqb id other)) [
            | inl s ↦ let o : id ≡ other = ground arith in rw (s, n, sym o) p
            | inr s ↦ rw s (refresh-other now h id other db.hsms e s)
          ],
          rw (find-refresh now h db.hsms, e) refl,
        )
]

-- Two rows are of the same module.
abbrev pub SameModule : Hsm → Hsm → Type 0
SameModule h g = (g.serial ≡ h.serial) × (g.source ≡ h.source)

same_hsm_iff : (h g : Hsm) → (same_hsm h g ≡ true) ↔ SameModule h g
same_hsm_iff h g = ground (arith, eq_iff g.serial h.serial, eq_iff g.source h.source)

find-none :
    (h : Hsm) (rows : List Hsm) → find_hsm h rows ≡ none → All (λ g. ¬ (SameModule h g)) rows
unfolding find_hsm
find-none h [] e = tt
find-none h (row ∷ rows) e = elim (Bool-cases (same_hsm h row)) [
  | inl s ↦ absurd (ground arith)
  | inr s ↦ (λ m. let t = (same_hsm_iff h row).1 m in cc, find-none h rows (ground arith))
]

hsm_by_id-Elem :
    (id : ℕ) (rows : List Hsm) (row : Hsm) → hsm_by_id id rows ≡ some row → Elem row rows
unfolding hsm_by_id
hsm_by_id-Elem id [] row e = cc
hsm_by_id-Elem id (x ∷ rows) row e = elim (Bool-cases (eqb x.id id)) [
  | inl s ↦ inl (ground arith)
  | inr s ↦ inr (hsm_by_id-Elem id rows row (ground arith))
]

-- The row has all that was seen of the module now. Its first sight is now where no row was of this
-- module, and that of the old row, whose id it keeps, where one was.
abbrev pub IsRowAfter : Time → Hsm → Db → ℕ → Hsm → Type 0
IsRowAfter now h db id row =
    SameModule h row
    × (row.id ≡ id)
    × (row.label ≡ h.label)
    × (row.model ≡ h.model)
    × (row.manufacturer ≡ h.manufacturer)
    × (row.firmware ≡ h.firmware)
    × (row.module_path ≡ h.module_path)
    × (row.slot_id ≡ h.slot_id)
    × (row.last_seen ≡ now)
    × (All (λ g. ¬ (SameModule h g)) db.hsms × (row.first_seen ≡ now)
        ⊎ (old : Hsm) × Elem old db.hsms
          × SameModule h old
          × (old.id ≡ id)
          × (row.first_seen ≡ old.first_seen))

pub upsert_hsm-IsRowAfter :
    (now : Time) (h : Hsm) (db : Db)
    → IsValid db
    → let (id, db') = upsert_hsm now h db in
      (row : Hsm) × (get_hsm id db' ≡ some row) × IsRowAfter now h db id row
unfolding upsert_hsm get_hsm
upsert_hsm-IsRowAfter now h db v = elim (Option-cases (find_hsm h db.hsms)) [
  | inl e ↦
      let z = fresh_hsm now db.next_hsm h in
      let p = hsm_by_id-append db.next_hsm db.hsms z v.hsm_table.below in
      rw (upsert_hsm, e)
        (
          z,
          rw p (ground arith),
          (
            (refl, refl),
            refl,
            refl,
            refl,
            refl,
            refl,
            refl,
            refl,
            refl,
            inl (find-none h db.hsms e, refl),
          ),
        )
  | inr (id, e) ↦
      let (old, n, s, p) = find_some now h id db.hsms e v.hsm_table.distinct in
      let same = (same_hsm_iff h old).0 s in
      let own = hsm_by_id_id id db.hsms old n in
      rw (upsert_hsm, e)
        (
          refreshed now h old,
          p,
          (
            same,
            own,
            refl,
            refl,
            refl,
            refl,
            refl,
            refl,
            refl,
            inr (old, hsm_by_id-Elem id db.hsms old n, same, own, refl),
          ),
        )
]

-- In a valid database, the id that `UpsertHSM` returns names a row of the module afterwards, which
-- has the serial, the source and everything else that was seen now; its first sight is now where no
-- row had this serial and source, and otherwise that of the row that had them, whose id it keeps.
-- Every other id names what it named, and a second upsert of the module returns the same id.
pub upsert_hsm-get_hsm :
    (now later : Time) (h : Hsm) (db : Db)
    → IsValid db
    → let (id, db') = upsert_hsm now h db in
      ((row : Hsm) × (get_hsm id db' ≡ some row) × IsRowAfter now h db id row)
      × ((other : ℕ) → other ≢ id → get_hsm other db' ≡ get_hsm other db)
      × ((upsert_hsm later h db').0 ≡ id)
upsert_hsm-get_hsm now later h db v =
    let (id, db') = upsert_hsm now h db in
    (
      upsert_hsm-IsRowAfter now h db v,
      λ other n. ground (arith, (upsert_hsm-rows now later h other db v).0),
      (upsert_hsm-rows now later h 0 db v).1,
    )
