-- ===== src/Notify/Expiry.antt =====
-- internal/notify/notifier.go: reminders of expiring certificates, once for each threshold.
use hsm_doctor.Base.{
  String, Bool, true, false, not, Option, none, some, List, [], ◌∷◌, ◌++◌, if◌then◌else◌,
}
use hsm_doctor.Base.Int.{ℤ, pos, ◌-ℤ◌, wrap64, ltb_ℤ, leb_ℤ}
use hsm_doctor.Base.Sort.{sort_by}
use hsm_doctor.Base.Text.{◌+++◌, decimal_ℤ}
use hsm_doctor.Base.Clock.{Format}
use hsm_doctor.Base.Fallible.{Fallible, done, failed}
use hsm_doctor.Notify.{Config, Mail, CertInfo, enabled, warn_days, or_else, plural}

-- What a reminder is recorded under.
pub record Entry : Type 0 where
  pub hsm_id : ℤ
  pub kind : String
  pub ref : String
  pub threshold : ℤ

-- `MarkNotified`: whether the entry is new, and the ledger after it.
abbrev pub Mark : Type 0 → Type 0
Mark L = Entry → L → Fallible Bool × L

-- From the highest to the lowest; `sort.Sort` in place.
unfoldable pub descending : List ℤ → List ℤ
descending = sort_by (λ a b. ltb_ℤ b a)

-- `thresholds[len(thresholds)-1]` of a list that starts with `th`
unfoldable pub last : ℤ → List ℤ → ℤ
last th [] = th
last th (t ∷ rest) = last t rest

-- The loop keeps the last threshold that is not below the days left.
unfoldable pub bucket_from : ℤ → Option ℤ → List ℤ → Option ℤ
bucket_from days found [] = found
bucket_from days found (th ∷ rest) =
    bucket_from days (if leb_ℤ days th then some th else found) rest

unfoldable pub crossed_threshold : ℤ → List ℤ → Option ℤ
crossed_threshold days [] = none
crossed_threshold days (th ∷ rest) =
    if ltb_ℤ days (pos 0) then some (last th rest) else bucket_from days none (th ∷ rest)

unfoldable pub reminder : Format → Config → String → CertInfo → Mail
reminder fmt cfg hsm_label c =
    let ref = or_else c.label c.subject in
    let expired = ltb_ℤ c.days_left (pos 0) in
    record {
      subject =
          if expired
          then "[HSM Doctor] Certificate EXPIRED: " +++ ref
          else "[HSM Doctor] Certificate expiring: "
            +++ ref
            +++ " ("
            +++ decimal_ℤ c.days_left
            +++ " day"
            +++ plural c.days_left
            +++ ")";
      body =
          "A certificate on HSM "
          +++ fmt.quote hsm_label
          +++ " needs attention.\n\n  Label:    "
          +++ c.label
          +++ "\n  Subject:  "
          +++ c.subject
          +++ "\n  Expires:  "
          +++ fmt.date c.not_after
          +++ "\n"
          +++ (if expired
              then "  Status:   EXPIRED "
                +++ decimal_ℤ (wrap64 (pos 0 -ℤ c.days_left))
                +++ " day(s) ago\n"
              else "  Status:   " +++ decimal_ℤ c.days_left +++ " day(s) left\n");
      to = cfg.smtp.to;
    }

module _ {L : Type 0} (mark : Mark L) (fmt : Format) (cfg : Config) (hsm_id : ℤ)
    (hsm_label : String) where
  abbrev pub entry_of : CertInfo → ℤ → Entry
  entry_of c bucket = record {
    hsm_id = hsm_id;
    kind = "cert-expiry";
    ref = or_else c.label c.subject;
    threshold = bucket;
  }

  abbrev sent_if : Fallible Bool → CertInfo → List Mail
  sent_if (failed e) c = []
  sent_if (done false) c = []
  sent_if (done true) c = reminder fmt cfg hsm_label c ∷ []

  -- The body of the loop, once the threshold is known.
  unfoldable pub remind : CertInfo → Option ℤ → L → List Mail × L
  remind c none s = ([], s)
  remind c (some bucket) s = let (fresh, s') = mark (entry_of c bucket) s in (sent_if fresh c, s')

  unfoldable pub remind_all : List ℤ → List CertInfo → L → List Mail × L
  remind_all thresholds [] s = ([], s)
  remind_all thresholds (c ∷ rest) s =
      let (mails, s') = remind c (crossed_threshold c.days_left thresholds) s in
      let (more, s'') = remind_all thresholds rest s' in (mails ++ more, s'')

-- The configuration's own list is sorted where it has one.
unfoldable pub sorted_config : Config → Config
sorted_config c = record c { cert_warn_days = descending c.cert_warn_days }

-- The mails, the ledger and the configuration after the call; a nil notifier is `none`.
unfoldable pub notify_cert_expiry :
    {L : Type 0}
    → Mark L
    → Format
    → Option Config
    → ℤ
    → String
    → List CertInfo
    → L
    → List Mail × L × Option Config
notify_cert_expiry mark fmt none hsm_id label certs s = ([], s, none)
notify_cert_expiry mark fmt (some cfg) hsm_id label certs s =
    if not (enabled cfg.cert_expiry)
    then ([], s, some cfg)
    else let (mails, s') =
        remind_all mark fmt cfg hsm_id label (descending (warn_days cfg)) certs s in
      (mails, s', some (sorted_config cfg))

-- Without a ledger each reminder is new.
abbrev pub no_ledger : Mark (Unit {0})
no_ledger e s = (done true, s)
