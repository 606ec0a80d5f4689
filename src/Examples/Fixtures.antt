-- ===== src/Examples/Fixtures.antt =====
-- A small token, rules, and traces. Times count nanoseconds, so the certificate of the token
-- expires ten days after `now`.
use hsm_doctor.Base.{ℕ, suc, ◌/◌, String, Bool, true, false, Option, none, some, List, [], ◌∷◌}
use hsm_doctor.Base.Int.{ℤ, pos, negsuc, ◌-ℤ◌, ◌*ℤ◌, leb_ℤ}
use hsm_doctor.Base.Text.{decimal_ℤ}
use hsm_doctor.Base.Clock.{Time, Duration, Format}
use hsm_doctor.Inventory.{
  TokenInfo, Mechanism, CertInfo, Object, Inventory, class_private_key, class_certificate,
}
use hsm_doctor.Policy.Severity.{critical, high}
use hsm_doctor.Policy.Condition.{Rule, Config}
use hsm_doctor.Policy.Match.Negative.{no_condition}
use hsm_doctor.Trace.Event.{Event}

-- Whole days, towards zero.
pub whole_days : Duration → ℤ
unfolding ◌-ℤ◌
whole_days (pos n) = pos (n / 86400000000000)
whole_days (negsuc n) = pos 0 -ℤ pos (suc n / 86400000000000)

-- The share in exact arithmetic.
pub pct_at_least : Duration → Duration → ℤ → Bool
unfolding ◌*ℤ◌
pct_at_least part whole limit = leb_ℤ (limit *ℤ whole) (part *ℤ pos 100)

abbrev pub fmt : Format
fmt = record {
  date = decimal_ℤ;
  quote = λ s. s;
  whole_days = whole_days;
  pct_at_least = pct_at_least;
  pct_text = λ part whole. decimal_ℤ part;
  round_ms = decimal_ℤ;
}

abbrev pub now : Time
now = pos 86400000000000

abbrev pub cert : CertInfo
cert = record {
  subject = "CN=web";
  issuer = "CN=web";
  serial_number = "1";
  not_before = pos 0;
  not_after = pos 950400000000000;
  signature_algorithm = "SHA256-RSA";
  public_key_algorithm = "RSA";
  public_key_bits = pos 1024;
  is_ca = false;
  self_signed = true;
  key_usage = [];
  public_key_fingerprint = "fp-cert";
  chain_status = "";
}

abbrev pub key : Object
key = record {
  class = class_private_key;
  label = "web";
  id = "01";
  key_type = "RSA";
  key_bits = 1024;
  curve = "";
  public_key_fingerprint = "fp-key";
  token = some true;
  private = some true;
  modifiable = none;
  local = none;
  sensitive = some true;
  extractable = some true;
  always_sensitive = none;
  never_extractable = none;
  sign = some true;
  verify = none;
  encrypt = none;
  decrypt = some true;
  wrap = none;
  unwrap = none;
  derive = none;
  certificate = none;
}

-- A second key under the label of the first.
abbrev pub twin : Object
twin = record key { id = "02"; key_bits = 4096; extractable = some false }

abbrev pub web_cert : Object
web_cert = record key {
  class = class_certificate;
  key_type = "";
  key_bits = 0;
  certificate = some cert;
}

abbrev pub token : TokenInfo
token = record {
  label = "prod";
  manufacturer = "acme";
  model = "m1";
  serial_number = "42";
  hardware_version = "1.0";
  firmware_version = "2.0";
  initialized = true;
  login_required = true;
  max_session_count = 10;
  session_count = 3;
}

abbrev pub mechanism : String → Mechanism
mechanism name = record {
  code = 1;
  name = name;
  min_key_size = 0;
  max_key_size = 0;
  flags = [];
  hardware = false;
}

abbrev pub inv : Inventory
inv = record {
  scanned_at = now;
  module_info = record {
    path = "lib.so";
    cryptoki_version = "2.40";
    manufacturer = "acme";
    description = "";
    library_version = "1";
  };
  slot = record {
    id = 0;
    description = "";
    manufacturer = "";
    token_present = true;
    token = some token;
  };
  mechanisms = mechanism "CKM_DES_CBC" ∷ mechanism "CKM_AES_GCM" ∷ [];
  logged_in = true;
  objects = key ∷ twin ∷ web_cert ∷ [];
}

-- The scan after the twin is gone and a mechanism came.
abbrev pub later_inv : Inventory
later_inv = record inv {
  mechanisms = mechanism "CKM_AES_GCM" ∷ mechanism "CKM_ML_DSA" ∷ [];
  objects = key ∷ web_cert ∷ [];
}

abbrev pub weak_key : Rule
weak_key = record {
  id = "R1";
  title = "extractable private key";
  severity = critical;
  description = "";
  remediation = "replace it";
  reference = "";
  match_on = record no_condition { class = class_private_key; extractable = some true };
}

abbrev pub old_mechanism : Rule
old_mechanism = record {
  id = "R2";
  title = "DES";
  severity = high;
  description = "";
  remediation = "";
  reference = "";
  match_on = record no_condition { mechanism_any_of = "CKM_DES_CBC" ∷ [] };
}

abbrev pub cfg : Config
cfg = record { pack = none; rules = old_mechanism ∷ weak_key ∷ []; scoring = none }

abbrev pub call : ℕ → String → Option ℕ → Option ℕ → Event
call seq function session object = record {
  seq = seq;
  ts = pos 0;
  function = function;
  thread = pos 1;
  session = session;
  slot = none;
  object = object;
  label = "";
  key_id = "";
  mechanism = "CKM_RSA_PKCS";
  data_len = none;
  out_len = none;
  rv = 0;
  rv_name = "CKR_OK";
  duration_ns = pos 1000;
  attrs = [];
}

-- A session that is never closed, a signature that is never made, and a failed login.
abbrev pub trace : List Event
trace =
    call 1 "C_Initialize" none none
    ∷ call 2 "C_OpenSession" (some 7) none
    ∷ record (call 3 "C_Login" (some 7) none) { rv = 256; rv_name = "CKR_USER_NOT_LOGGED_IN" }
    ∷ record (call 4 "C_FindObjectsInit" (some 7) none) { label = "web" }
    ∷ call 5 "C_FindObjects" (some 7) (some 20)
    ∷ call 6 "C_SignInit" (some 7) (some 20)
    ∷ call 7 "C_SignInit" (some 7) (some 21)
    ∷ []
