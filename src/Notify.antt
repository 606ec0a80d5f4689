-- ===== src/Notify.antt =====
-- internal/notify/notify.go and internal/notify/notifier.go: the configuration of notifications,
-- and when a mail is sent. A mailer's error is logged and changes nothing, so a mail is what the
-- mailer is given; the ledger is a parameter.
pub mod Settings
pub mod Expiry
pub mod Smtp
pub mod Thresholds
pub mod Once
use hsm_doctor.Base.{
  ℕ, String, Bool, true, false, not, Option, none, some, List, [], ◌∷◌, ◌++◌, ◌&&◌, ◌||◌, ◌==◌, eqb,
  ltb, length, if◌then◌else◌, foldl,
}
use hsm_doctor.Base.Int.{ℤ, pos, negsuc, ◌-ℤ◌, wrap64, ltb_ℤ, leb_ℤ, eq_ℤ}
use hsm_doctor.Base.Sort.{sort_by}
use hsm_doctor.Base.Text.{◌+++◌, join, decimal, decimal_ℤ}
use hsm_doctor.Base.Clock.{Time, Format}
use hsm_doctor.Base.Fallible.{Fallible, done, failed}

pub record SmtpConfig : Type 0 where
  pub host : String
  pub port : ℤ
  pub username : String
  pub password : String
  pub from_address : String
  pub to : List String
  pub tls : String

pub record Config : Type 0 where
  pub smtp : SmtpConfig
  pub drift : Option Bool
  pub regression : Option Bool
  pub cert_expiry : Option Bool
  pub cert_warn_days : List ℤ

abbrev pub starttls : String
starttls = "starttls"

-- The three values of `TLSMode`.
abbrev pub is_mode : String → Bool
is_mode m = m == starttls || m == "implicit" || m == "none"

pub data Error : Type 0 where
  no_host no_port no_from no_to : Error
  invalid_tls : String → Error

abbrev pub defaulted : String → String
defaulted m = if m == "" then starttls else m

-- The first switch of `validate`.
unfoldable pub missing_field : SmtpConfig → Option Error
missing_field s =
    if s.host == ""
    then some no_host
    else if eq_ℤ s.port (pos 0)
    then some no_port
    else if s.from_address == ""
    then some no_from
    else if eqb (length s.to) 0
    then some no_to
    else none

-- The second switch.
unfoldable pub mode_error : String → Option Error
mode_error m = if is_mode m then none else some (invalid_tls m)

abbrev pub with_mode : Config → Config
with_mode c = record c { smtp = record c.smtp { tls = defaulted c.smtp.tls } }

-- The error, if there is one, and the configuration, in which an empty mode has become the default.
unfoldable pub validate : Config → Option Error × Config
validate c = elim (missing_field c.smtp) [
  | some e ↦ (some e, c)
  | none ↦ (mode_error (defaulted c.smtp.tls), with_mode c)
]

-- `DriftEnabled`, `RegressionEnabled` and `CertExpiryEnabled`, each on its field.
abbrev pub enabled : Option Bool → Bool
enabled none = true
enabled (some b) = b

unfoldable pub warn_days : Config → List ℤ
warn_days c =
    if ltb 0 (length c.cert_warn_days) then c.cert_warn_days else pos 30 ∷ pos 14 ∷ pos 1 ∷ []

unfoldable pub address : SmtpConfig → String
address c = c.host +++ ":" +++ decimal_ℤ c.port

pub record Mail : Type 0 where
  pub subject : String
  pub body : String
  pub to : List String

-- The message on the wire; `crlf` is `strings.ReplaceAll(body, "\n", "\r\n")`.
unfoldable pub build_message : (String → String) → String → Mail → String
build_message crlf from_address m =
    "From: "
    +++ from_address
    +++ "\r\nTo: "
    +++ join ", " m.to
    +++ "\r\nSubject: "
    +++ m.subject
    +++ "\r\nMIME-Version: 1.0\r\nContent-Type: text/plain; charset=utf-8\r\n\r\n"
    +++ crlf m.body

-- `MaxWarnDays`; a nil notifier is `none`.
abbrev larger : ℤ → ℤ → ℤ
larger max d = if ltb_ℤ max d then d else max

unfoldable pub max_from : ℤ → List ℤ → ℤ
max_from max [] = max
max_from max (d ∷ rest) = max_from (larger max d) rest

unfoldable pub max_warn_days : Option Config → ℤ
max_warn_days none = pos 0
max_warn_days (some c) = max_from (pos 0) (warn_days c)

unfoldable pub plural : ℤ → String
plural n = if eq_ℤ n (pos 1) || eq_ℤ n (negsuc 0) then "" else "s"

-- `%+d`
abbrev signed : ℤ → String
signed (pos n) = "+" +++ decimal n
signed (negsuc n) = decimal_ℤ (negsuc n)

unfoldable pub bullets : List String → String
bullets [] = ""
bullets (s ∷ rest) = "  - " +++ s +++ "\n" +++ bullets rest

pub record DriftInfo : Type 0 where
  pub hsm_id : ℤ
  pub serial : String
  pub label : String
  pub source : String
  pub changes : ℤ
  pub summary : List String

pub record RegressionInfo : Type 0 where
  pub hsm_id : ℤ
  pub serial : String
  pub label : String
  pub source : String
  pub score_delta : ℤ
  pub reasons : List String

pub record CertInfo : Type 0 where
  pub label : String
  pub subject : String
  pub days_left : ℤ
  pub not_after : Time

abbrev pub or_else : String → String → String
or_else s t = if s == "" then t else s

unfoldable pub notify_drift : Format → Option Config → DriftInfo → List Mail
notify_drift fmt none d = []
notify_drift fmt (some c) d =
    if not (enabled c.drift)
    then []
    else record {
      subject =
          "[HSM Doctor] Drift on "
          +++ or_else d.label d.serial
          +++ " ("
          +++ decimal_ℤ d.changes
          +++ " change"
          +++ plural d.changes
          +++ ")";
      body =
          "Configuration drift was detected on HSM "
          +++ fmt.quote d.label
          +++ " (serial "
          +++ d.serial
          +++ ", source "
          +++ d.source
          +++ ").\n\n"
          +++ decimal_ℤ d.changes
          +++ " change(s):\n"
          +++ bullets d.summary
          +++ "\nReview the full diff in the HSM Doctor dashboard.\n";
      to = c.smtp.to;
    }
      ∷ []

unfoldable pub notify_regression : Format → Option Config → RegressionInfo → List Mail
notify_regression fmt none r = []
notify_regression fmt (some c) r =
    if not (enabled c.regression)
    then []
    else record {
      subject =
          "[HSM Doctor] Posture regression on "
          +++ or_else r.label r.serial
          +++ " (score "
          +++ signed r.score_delta
          +++ ")";
      body =
          "The security posture of HSM "
          +++ fmt.quote r.label
          +++ " (serial "
          +++ r.serial
          +++ ", source "
          +++ r.source
          +++ ") worsened.\n\n"
          +++ bullets r.reasons
          +++ "\nReview the scan history in the HSM Doctor dashboard.\n";
      to = c.smtp.to;
    }
      ∷ []
