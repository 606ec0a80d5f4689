-- ===== src/Store/Notified.antt =====
-- internal/store: the ledger of notifications is a set of entries, and serves the reminders.
use hsm_doctor.Base.{
  ◌≡◌, refl, ◌↔◌, Bool, true, not, some, List, [], ◌∷◌, ◌++◌, ◌||◌, any, arith, eq_iff, String,
  Bool-cases, inl, inr,
}
use hsm_doctor.Base.Int.{ℤ, eq_ℤ_iff}
use hsm_doctor.Base.Clock.{Format}
use hsm_doctor.Base.Fallible.{done}
use hsm_doctor.Notify.{Config, CertInfo}
use hsm_doctor.Notify.Expiry.{Entry, Mark, notify_cert_expiry}
use hsm_doctor.Notify.Once.{Ledger, same_entry, notify_cert_expiry-once}
use hsm_doctor.Store.{Db}
use hsm_doctor.Store.Events.{mark_notified}

abbrev pub recorded : Entry → Db → Bool
recorded e db = any (same_entry e) db.notifications

same_entry_iff : (d e : Entry) → (same_entry d e ≡ true) ↔ (d ≡ e)
same_entry_iff d e = ground (
  arith,
  eq_ℤ_iff d.hsm_id e.hsm_id,
  eq_iff d.kind e.kind,
  eq_iff d.ref e.ref,
  eq_ℤ_iff d.threshold e.threshold,
)

any-append_one :
    (p : Entry → Bool) (l : List Entry) (e : Entry) → any p (l ++ e ∷ []) ≡ (p e || any p l)
any-append_one p [] e = refl
any-append_one p (x ∷ l) e = ground (arith, any-append_one p l e)

mark_notified_again :
    (d e : Entry) (db : Db)
    → recorded e db ≡ true
    → recorded d db ≡ (same_entry d e || recorded d db)
mark_notified_again d e db h = elim (Bool-cases (same_entry d e)) [
  | inl s ↦ let q : d ≡ e = (same_entry_iff d e).0 s in rw (s, q) h
  | inr s ↦ rw s
]

pub mark_notified_lem :
    (d e : Entry) (db : Db)
    → ((mark_notified e db).0 ≡ not (recorded e db))
      × (recorded d (mark_notified e db).1 ≡ (same_entry d e || recorded d db))
unfolding mark_notified
mark_notified_lem d e db = elim (Bool-cases (recorded e db)) [
  | inl h ↦ rw h (refl, mark_notified_again d e db h)
  | inr h ↦ rw h (refl, any-append_one (same_entry d) db.notifications e)
]

unfoldable pub db_mark : Mark Db
db_mark e db = let (fresh, db') = mark_notified e db in (done fresh, db')

unfoldable pub db_ledger : Ledger Db
unfolding db_mark
db_ledger = record {
  mark = db_mark;
  has = recorded;
  mark_result = λ e db i. done ((mark_notified_lem e e db).0 i);
  mark_has = λ d e db. (mark_notified_lem d e db).1;
}

-- With the database as the ledger, a second call for the same certificates sends nothing.
pub notify_cert_expiry-db :
    (fmt : Format) (cfg : Config) (hsm_id : ℤ) (label : String) (certs : List CertInfo) (db : Db)
    → let (mails, db', cfg') = notify_cert_expiry db_mark fmt (some cfg) hsm_id label certs db in
      (notify_cert_expiry db_mark fmt cfg' hsm_id label certs db').0 ≡ []
unfolding db_ledger
notify_cert_expiry-db fmt cfg hsm_id label certs db =
    notify_cert_expiry-once db_ledger fmt cfg hsm_id label certs db
