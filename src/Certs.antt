-- ===== src/Certs.antt =====
-- internal/certmon/certmon.go: the expiry status of the certificates of an inventory.
pub mod Laws
use hsm_doctor.Base.{
  ℕ, ◌+◌, String, Bool, false, not, Option, none, some, List, [], ◌∷◌, ◌++◌, ◌&&◌, ◌||◌, ◌==◌,
  if◌then◌else◌,
}
use text.Mathlib.Text.{starts_with}
use hsm_doctor.Base.Int.{ℤ, pos, ltb_ℤ, leb_ℤ}
use hsm_doctor.Base.Sort.{sort_by}
use hsm_doctor.Base.Dict.{Dict, lookup, insert, or_zero, string_eq}
use hsm_doctor.Base.Text.{◌+++◌, decimal_ℤ}
use hsm_doctor.Base.Clock.{Time, Format, sub, before, days}
use hsm_doctor.Inventory.{
  Inventory, Object, CertInfo, contains, has_key_usage, class_private_key, class_public_key,
  class_certificate,
}

pub data Status : Type 0 where
  ok expiring expired : Status

pub record Entry : Type 0 where
  pub label : String
  pub id : String
  pub subject : String
  pub issuer : String
  pub not_after : Time
  pub is_ca : Bool
  pub status : Status
  pub days_left : ℤ
  pub warnings : List String

abbrev pub when : Bool → String → List String
when b s = if b then s ∷ [] else []

-- What the first loop of `Classify` adds for one object.
pub note_key : Dict String (List String) → Object → Dict String (List String)
note_key m o =
    if (o.class == class_private_key || o.class == class_public_key)
      && not (o.id == "")
      && not (o.public_key_fingerprint == "")
    then insert o.id (or_zero [] (lookup o.id m) ++ o.public_key_fingerprint ∷ []) m
    else m

pub note_keys : Dict String (List String) → List Object → Dict String (List String)
note_keys m [] = m
note_keys m (o ∷ os) = note_keys (note_key m o) os

-- `len(fps) > 0 && !containsFP(fps, fp)`
abbrev pub differs_from_all : List String → String → Bool
differs_from_all [] fp = false
differs_from_all (x ∷ xs) fp = not (contains (x ∷ xs) fp)

unfoldable pub key_mismatch : Object → CertInfo → Dict String (List String) → Bool
key_mismatch o c key_fps =
    not (o.id == "")
    && not (c.public_key_fingerprint == "")
    && differs_from_all (or_zero [] (lookup o.id key_fps)) c.public_key_fingerprint

unfoldable pub weak_rsa : CertInfo → Bool
weak_rsa c =
    c.public_key_algorithm == "RSA"
    && ltb_ℤ (pos 0) c.public_key_bits
    && ltb_ℤ c.public_key_bits (pos 2048)

unfoldable pub cert_warnings : Object → CertInfo → Time → Dict String (List String) → List String
cert_warnings o c now key_fps =
    when (c.self_signed && not c.is_ca) "self-signed"
    ++ when (before now c.not_before) "not yet valid"
    ++ when (weak_rsa c) ("weak RSA key (" +++ decimal_ℤ c.public_key_bits +++ "-bit)")
    ++ when (c.is_ca && not (has_key_usage c "keyCertSign")) "CA without keyCertSign"
    ++ when (key_mismatch o c key_fps) "key mismatch"
    ++ when (starts_with c.chain_status "unverified") "chain unverified"

-- The switch on the time that is left.
unfoldable pub status_of : Time → ℤ → CertInfo → Status
status_of now warn_days c =
    let left = sub c.not_after now in
    if leb_ℤ left (pos 0) then expired else if leb_ℤ left (days warn_days) then expiring else ok

module _ (fmt : Format) (now : Time) (warn_days : ℤ) (key_fps : Dict String (List String)) where
  unfoldable pub entry_of : Object → CertInfo → Entry
  entry_of o c = record {
    label = o.label;
    id = o.id;
    subject = c.subject;
    issuer = c.issuer;
    not_after = c.not_after;
    is_ca = c.is_ca;
    status = status_of now warn_days c;
    days_left = fmt.whole_days (sub c.not_after now);
    warnings = cert_warnings o c now key_fps;
  }

  pub listed : Object → Option CertInfo → List Entry
  listed o none = []
  listed o (some c) = entry_of o c ∷ []

  pub entries_of_object : Object → List Entry
  entries_of_object o = if o.class == class_certificate then listed o o.certificate else []

  pub entries : List Object → List Entry
  entries [] = []
  entries (o ∷ os) = entries_of_object o ++ entries os

abbrev pub sooner : Entry → Entry → Bool
sooner a b = before a.not_after b.not_after

unfoldable pub classify : Format → Inventory → Time → ℤ → List Entry
classify fmt inv now warn_days =
    sort_by sooner (entries fmt now warn_days (note_keys [] inv.objects) inv.objects)

pub record Counts : Type 0 where
  pub ok : ℕ
  pub expiring : ℕ
  pub expired : ℕ

count_entry : Counts → Entry → Counts
count_entry c e = elim e.status [
  | ok ↦ record c { ok = c.ok + 1 }
  | expiring ↦ record c { expiring = c.expiring + 1 }
  | expired ↦ record c { expired = c.expired + 1 }
]

pub count_from : Counts → List Entry → Counts
count_from c [] = c
count_from c (e ∷ es) = count_from (count_entry c e) es

unfoldable pub counts : List Entry → Counts
counts es = count_from (record { ok = 0; expiring = 0; expired = 0 }) es
