-- ===== src/P11/Uri.antt =====
-- internal/p11/uri.go: PKCS#11 URIs. The decoding of percent signs, `url.ParseQuery` and the files of
-- `pin-source` are parameters.
pub mod Matching
use hsm_doctor.Base.{
  ℕ, String, Bool, false, not, Option, none, some, List, [], ◌∷◌, ◌&&◌, ◌||◌, ◌==◌, if◌then◌else◌,
  keep, map, length,
}
use hsm_doctor.Base.Text.{◌+++◌, decimal, join}
use hsm_doctor.Base.Text.Parts.{cut_prefix, cut_at, split_on, parse_uint, trim_space}
use hsm_doctor.Base.Fallible.{Fallible, done, failed, ◌>>=◌}
use hsm_doctor.Inventory.{SlotInfo, TokenInfo}

pub record Uri : Type 0 where
  pub token : String
  pub serial : String
  pub manufacturer : String
  pub model : String
  pub slot_id : Option ℕ
  pub module_path : String
  pub pin_value : String
  pub pin_source : String

abbrev empty_uri : Uri
empty_uri = record {
  token = "";
  serial = "";
  manufacturer = "";
  model = "";
  slot_id = none;
  module_path = "";
  pin_value = "";
  pin_source = "";
}

module _ (quote : String → String) (unescape : String → Fallible String)
    (parse_query : String → Fallible (String → String)) where
  -- The `switch` of one attribute, whose value is decoded.
  unfoldable pub set_attribute : String → String → Uri → Fallible Uri
  set_attribute key value u =
      if key == "token"
      then done (record u { token = value })
      else if key == "serial"
      then done (record u { serial = value })
      else if key == "manufacturer"
      then done (record u { manufacturer = value })
      else if key == "model"
      then done (record u { model = value })
      else if key == "slot-id"
      then elim (parse_uint 64 value) [
        | none ↦ failed ("invalid slot-id " +++ quote value)
        | some id ↦ done (record u { slot_id = some id })
      ]
      else done u

  abbrev decoded : String → Fallible String → Fallible String
  decoded key (done v) = done v
  decoded key (failed e) = failed ("decoding URI attribute " +++ quote key +++ ": " +++ e)

  unfoldable pub parse_attribute : String → Uri → Fallible Uri
  parse_attribute attr u = elim (cut_at b'=' attr) [
    | none ↦ failed ("malformed URI attribute " +++ quote attr)
    | some (key, value) ↦ decoded key (unescape value) >>= λ v. set_attribute key v u
  ]

  unfoldable pub parse_attributes : List String → Uri → Fallible Uri
  parse_attributes [] u = done u
  parse_attributes (attr ∷ rest) u = parse_attribute attr u >>= parse_attributes rest

  unfoldable pub parse_path : String → Fallible Uri
  parse_path path =
      if path == "" then done empty_uri else parse_attributes (split_on b';' path) empty_uri

  unfoldable pub add_query : String → Uri → Fallible Uri
  add_query query u = if query == "" then done u else elim (parse_query query) [
    | failed e ↦ failed ("parsing URI query: " +++ e)
    | done get ↦ done (record u {
      module_path = get "module-path";
      pin_value = get "pin-value";
      pin_source = get "pin-source";
    })
  ]

  abbrev parts : Option (String × String) → String → String × String
  parts none rest = (rest, "")
  parts (some p) rest = p

  unfoldable pub parse_uri : String → Fallible Uri
  parse_uri raw = elim (cut_prefix raw "pkcs11:") [
    | none ↦ failed ("not a PKCS#11 URI (missing pkcs11: scheme): " +++ quote raw)
    | some rest ↦
        let (path, query) = parts (cut_at b'?' rest) rest in parse_path path >>= add_query query
  ]

-- `read` is `os.ReadFile`.
unfoldable pub pin : (String → Fallible String) → Uri → Fallible String
pin read u =
    if not (u.pin_value == "")
    then done u.pin_value
    else if not (u.pin_source == "")
    then elim (read u.pin_source) [
      | failed e ↦ failed ("reading pin-source: " +++ e)
      | done content ↦ done (trim_space content)
    ]
    else done ""

-- An attribute that is not empty has to be the token's.
abbrev pub agrees : String → String → Bool
agrees wanted value = wanted == "" || value == wanted

unfoldable pub token_matches : Uri → TokenInfo → Bool
token_matches u t =
    agrees u.token t.label
    && agrees u.serial t.serial_number
    && agrees u.manufacturer t.manufacturer
    && agrees u.model t.model

abbrev pub has_match : Uri → Option TokenInfo → Bool
has_match u none = false
has_match u (some t) = token_matches u t

unfoldable pub slot_matches : Uri → SlotInfo → Bool
slot_matches u s = s.token_present && has_match u s.token

abbrev label_of : Option TokenInfo → String
label_of none = ""
label_of (some t) = t.label

abbrev ambiguous : List SlotInfo → String
ambiguous slots =
    "URI matches "
    +++ decimal (length slots)
    +++ " tokens ("
    +++ join ", " (
        map (λ (s : SlotInfo). "slot " +++ decimal s.id +++ " (" +++ label_of s.token +++ ")")
          slots)
    +++ "); add serial= to disambiguate"

unfoldable pub pick : (String → String) → Uri → List SlotInfo → Fallible ℕ
pick quote u [] =
    failed
      ("no token matches URI (token=" +++ quote u.token +++ " serial=" +++ quote u.serial +++ ")")
pick quote u (s ∷ []) = done s.id
pick quote u (s ∷ s' ∷ rest) = failed (ambiguous (s ∷ s' ∷ rest))

unfoldable pub match_slot : (String → String) → Uri → List SlotInfo → Fallible ℕ
match_slot quote u slots = elim u.slot_id [
  | some id ↦ done id
  | none ↦ pick quote u (keep (slot_matches u) slots)
]
