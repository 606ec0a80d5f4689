-- ===== src/Server/Persist/Database/Kept.antt =====
-- internal/server/history.go over internal/store: the reminders keep the database valid.
use hsm_doctor.Base.{
  ℕ, String, ◌≡◌, refl, any, inl, inr, Option, none, some, List, [], ◌∷◌, Bool-cases, Option-cases,
}
use hsm_doctor.Base.Int.{ℤ, pos}
use hsm_doctor.Base.Clock.{Time, Format}
use hsm_doctor.Inventory.{Inventory}
use hsm_doctor.Certs.{classify}
use hsm_doctor.Notify.{Config, CertInfo, enabled, warn_days, max_warn_days}
use hsm_doctor.Notify.Expiry.{
  Entry, Mark, descending, crossed_threshold, remind, remind_all, notify_cert_expiry,
}
use hsm_doctor.Store.{Db}
use hsm_doctor.Notify.Once.{same_entry}
use hsm_doctor.Store.Events.{mark_notified}
use hsm_doctor.Store.Notified.{db_mark}
use hsm_doctor.Store.Valid.{IsValid, mark_notified-IsValid}
use hsm_doctor.Server.Notices.{notices, remind_of, token_label, notify_expiry}

-- What every entry of the ledger keeps, the reminders keep.
module _ {L : Type 0} (mark : Mark L) (P : L → Type 0)
    (kept : (e : Entry) (s : L) → P s → P (mark e s).1) where
  remind_all-kept :
      (fmt : Format) (cfg : Config) (hsm_id : ℤ) (label : String) (thresholds : List ℤ)
      (certs : List CertInfo) (s : L)
      → P s
      → P (remind_all mark fmt cfg hsm_id label thresholds certs s).1
  unfolding remind_all remind
  remind_all-kept fmt cfg hsm_id label ths [] s p = p
  remind_all-kept fmt cfg hsm_id label ths (c ∷ rest) s p =
      elim (Option-cases (crossed_threshold c.days_left ths)) [
        | inl e ↦ rw (remind_all, e) (remind_all-kept fmt cfg hsm_id label ths rest s p)
        | inr (b, e) ↦
            rw (remind_all, e) (remind_all-kept fmt cfg hsm_id label ths rest _ (kept _ s p))
      ]

  notify_cert_expiry-kept :
      (fmt : Format) (cfg : Config) (hsm_id : ℤ) (label : String) (certs : List CertInfo) (s : L)
      → P s
      → P (notify_cert_expiry mark fmt (some cfg) hsm_id label certs s).1
  unfolding notify_cert_expiry
  notify_cert_expiry-kept fmt cfg hsm_id label certs s p =
      elim (Bool-cases (enabled cfg.cert_expiry)) [
        | inl e ↦
            rw (notify_cert_expiry, e)
              (remind_all-kept fmt cfg hsm_id label (descending (warn_days cfg)) certs s p)
        | inr e ↦ rw (notify_cert_expiry, e) p
      ]

  pub notify_expiry-kept :
      (fmt : Format) (now : Time) (hsm_id : ℕ) (inv : Inventory) (n : Option Config) (s : L)
      → P s
      → P (notify_expiry mark fmt now hsm_id inv n s).1
  unfolding notify_expiry
  notify_expiry-kept fmt now hsm_id inv none s p = p
  notify_expiry-kept fmt now hsm_id inv (some cfg) s p =
      go (notices (classify fmt inv now (max_warn_days (some cfg))))
    where
      go :
          (certs : List CertInfo)
          → P (remind_of mark fmt cfg hsm_id (token_label inv.slot.token) certs s).1
      go [] = p
      go (c ∷ rest) =
          notify_cert_expiry-kept fmt cfg (pos hsm_id) (token_label inv.slot.token) (c ∷ rest) s p

db_mark-IsValid : (e : Entry) (db : Db) → IsValid db → IsValid (db_mark e db).1
unfolding db_mark
db_mark-IsValid e db v = mark_notified-IsValid e db v

pub notify_expiry-IsValid :
    (fmt : Format) (now : Time) (hsm_id : ℕ) (inv : Inventory) (n : Option Config) (db : Db)
    → IsValid db
    → IsValid (notify_expiry db_mark fmt now hsm_id inv n db).1
notify_expiry-IsValid fmt now hsm_id inv n db v =
    notify_expiry-kept db_mark IsValid db_mark-IsValid fmt now hsm_id inv n db v

-- The tables that a scan is kept in, and their counters, are the same.
pub record Keeps (db db' : Db) : Type 0 where
  pub hsms : db'.hsms ≡ db.hsms
  pub scans : db'.scans ≡ db.scans
  pub drift_events : db'.drift_events ≡ db.drift_events
  pub next_scan : db'.next_scan ≡ db.next_scan
  pub next_drift : db'.next_drift ≡ db.next_drift

pub same-Keeps : (db : Db) → Keeps db db
same-Keeps db = record {
  hsms = refl;
  scans = refl;
  drift_events = refl;
  next_scan = refl;
  next_drift = refl;
}

mark_notified-Keeps : (db s : Db) (e : Entry) → Keeps db s → Keeps db (db_mark e s).1
unfolding db_mark mark_notified
mark_notified-Keeps db s e k = elim (Bool-cases (any (same_entry e) s.notifications)) [
  | inl r ↦ rw (mark_notified, r) k
  | inr r ↦
      rw (mark_notified, r)
        (record {
          hsms = k.hsms;
          scans = k.scans;
          drift_events = k.drift_events;
          next_scan = k.next_scan;
          next_drift = k.next_drift;
        })
]

pub notify_expiry-Keeps :
    (fmt : Format) (now : Time) (hsm_id : ℕ) (inv : Inventory) (n : Option Config) (db : Db)
    → Keeps db (notify_expiry db_mark fmt now hsm_id inv n db).1
notify_expiry-Keeps fmt now hsm_id inv n db =
    notify_expiry-kept db_mark (Keeps db) (λ e s k. mark_notified-Keeps db s e k) fmt now hsm_id inv
      n db (same-Keeps db)
