-- ===== src/Inventory.antt =====
-- internal/inventory/inventory.go and internal/p11/types.go: the metadata of one token. A pointer
-- that may be nil is an `Option`.
pub mod Curves
use hsm_doctor.Base.{
  ℕ, ◌+◌, ◌-◌, ◌^◌, String, Bool, true, false, Option, List, [], ◌∷◌, ◌||◌, ◌==◌, eqb, leb,
  if◌then◌else◌,
}
use hsm_doctor.Base.Int.{ℤ}
use hsm_doctor.Base.Clock.{Time}

pub record ModuleInfo : Type 0 where
  pub path : String
  pub cryptoki_version : String
  pub manufacturer : String
  pub description : String
  pub library_version : String

pub record TokenInfo : Type 0 where
  pub label : String
  pub manufacturer : String
  pub model : String
  pub serial_number : String
  pub hardware_version : String
  pub firmware_version : String
  pub initialized : Bool
  pub login_required : Bool
  pub max_session_count : ℕ
  pub session_count : ℕ

-- `CK_UNAVAILABLE_INFORMATION`, all 64 bits set
abbrev pub session_info_unavailable : ℕ
session_info_unavailable = 2 ^ 64 - 1

unfoldable pub session_capacity : TokenInfo → ℕ × Bool
session_capacity t =
    if eqb t.max_session_count 0
      || eqb t.max_session_count session_info_unavailable
      || eqb t.session_count session_info_unavailable
    then (0, false)
    else if leb t.max_session_count t.session_count
    then (0, true)
    else (t.max_session_count - t.session_count, true)

pub record SlotInfo : Type 0 where
  pub id : ℕ
  pub description : String
  pub manufacturer : String
  pub token_present : Bool
  pub token : Option TokenInfo

pub record Mechanism : Type 0 where
  pub code : ℕ
  pub name : String
  pub min_key_size : ℕ
  pub max_key_size : ℕ
  pub flags : List String
  pub hardware : Bool

abbrev pub class_private_key : String
class_private_key = "private-key"

abbrev pub class_public_key : String
class_public_key = "public-key"

abbrev pub class_secret_key : String
class_secret_key = "secret-key"

abbrev pub class_certificate : String
class_certificate = "certificate"

-- `Raw`, the DER bytes, is used for chain building alone and is left out.
pub record CertInfo : Type 0 where
  pub subject : String
  pub issuer : String
  pub serial_number : String
  pub not_before : Time
  pub not_after : Time
  pub signature_algorithm : String
  pub public_key_algorithm : String
  pub public_key_bits : ℤ
  pub is_ca : Bool
  pub self_signed : Bool
  pub key_usage : List String
  pub public_key_fingerprint : String
  pub chain_status : String

pub record Object : Type 0 where
  pub class : String
  pub label : String
  pub id : String
  pub key_type : String
  pub key_bits : ℕ
  pub curve : String
  pub public_key_fingerprint : String
  pub token : Option Bool
  pub private : Option Bool
  pub modifiable : Option Bool
  pub local : Option Bool
  pub sensitive : Option Bool
  pub extractable : Option Bool
  pub always_sensitive : Option Bool
  pub never_extractable : Option Bool
  pub sign : Option Bool
  pub verify : Option Bool
  pub encrypt : Option Bool
  pub decrypt : Option Bool
  pub wrap : Option Bool
  pub unwrap : Option Bool
  pub derive : Option Bool
  pub certificate : Option CertInfo

pub record Inventory : Type 0 where
  pub scanned_at : Time
  pub module_info : ModuleInfo
  pub slot : SlotInfo
  pub mechanisms : List Mechanism
  pub logged_in : Bool
  pub objects : List Object

-- The loops `contains` (internal/policy/eval.go), `containsFP` (internal/certmon/certmon.go) and
-- `HasKeyUsage` are one loop.
unfoldable pub contains : List String → String → Bool
contains [] v = false
contains (item ∷ rest) v = if item == v then true else contains rest v

unfoldable pub has_key_usage : CertInfo → String → Bool
unfolding contains
has_key_usage c name = contains c.key_usage name

pub record Counts : Type 0 where
  pub private_keys : ℕ
  pub public_keys : ℕ
  pub secret_keys : ℕ
  pub certificates : ℕ

-- The body of the loop in `Count`.
count_object : Counts → Object → Counts
count_object c o =
    if o.class == class_private_key
    then record c { private_keys = c.private_keys + 1 }
    else if o.class == class_public_key
    then record c { public_keys = c.public_keys + 1 }
    else if o.class == class_secret_key
    then record c { secret_keys = c.secret_keys + 1 }
    else if o.class == class_certificate
    then record c { certificates = c.certificates + 1 }
    else c

count_from : Counts → List Object → Counts
unfolding count_object
count_from c [] = c
count_from c (o ∷ rest) = count_from (count_object c o) rest

unfoldable pub count : Inventory → Counts
unfolding count_from
count inv =
    count_from (record { private_keys = 0; public_keys = 0; secret_keys = 0; certificates = 0 })
      inv.objects
