-- ===== src/Notify/Smtp.antt =====
-- internal/notify/smtp.go: what is handed to the standard library's SMTP client. The dialogue with
-- the server after that is input and output.
use hsm_doctor.Base.{String, Option, none, some, List, ◌==◌, eqb, length, if◌then◌else◌, ◌≡◌, refl}
use hsm_doctor.Notify.{SmtpConfig, Mail, address, build_message, starttls}

-- The user and the password, for the host.
pub record Auth : Type 0 where
  pub username : String
  pub password : String
  pub host : String

-- `smtp.SendMail`, which turns to TLS if the server offers it, or a client on a TLS connection.
pub data Delivery : Type 0 where
  send_mail : String → Option Auth → String → List String → String → Delivery
  over_tls : String → String → Option Auth → String → List String → String → Delivery

unfoldable pub auth : SmtpConfig → Option Auth
auth cfg =
    if cfg.username == ""
    then none
    else some (record { username = cfg.username; password = cfg.password; host = cfg.host })

abbrev recipients : SmtpConfig → List String → List String
recipients cfg to = if eqb (length to) 0 then cfg.to else to

unfoldable pub send : (String → String) → SmtpConfig → Mail → Delivery
unfolding build_message address auth
send crlf cfg m =
    let to = recipients cfg m.to in
    let msg = build_message crlf cfg.from_address (record m { to = to }) in
    if cfg.tls == "implicit"
    then over_tls (address cfg) cfg.host (auth cfg) cfg.from_address to msg
    else send_mail (address cfg) (auth cfg) cfg.from_address to msg

-- The modes "starttls" and "none" make no difference: each mail is handed to the same call, which
-- goes on without TLS where the server does not offer it.
pub send-starttls :
    (crlf : String → String) (cfg : SmtpConfig) (m : Mail)
    → send crlf (record cfg { tls = starttls }) m ≡ send crlf (record cfg { tls = "none" }) m
unfolding send auth address
send-starttls crlf cfg m = refl
