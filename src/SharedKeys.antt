-- ===== src/SharedKeys.antt =====
-- internal/sharedkeys/sharedkeys.go: private keys that are held by more than one HSM.
pub mod Groups
pub mod Laws
use hsm_doctor.Base.{
  ℕ, String, Bool, true, not, Option, none, some, List, [], ◌∷◌, ◌++◌, ◌||◌, ◌&&◌, ◌==◌, eqb, ltb,
  if◌then◌else◌, length,
}
use hsm_doctor.Base.Int.{ℤ, eq_ℤ, ltb_ℤ}
use hsm_doctor.Base.Sort.{sort_by}
use hsm_doctor.Base.Dict.{Dict, lookup, insert, or_zero, string_eq, int_eq}
use hsm_doctor.Base.Text.{◌+++◌, str_lt}
use hsm_doctor.Inventory.{Inventory, Object, class_private_key}

pub record Location : Type 0 where
  pub hsm_id : ℤ
  pub hsm_label : String
  pub serial : String
  pub source : String
  pub object : String
  pub key_type : String

pub record SharedKey : Type 0 where
  pub fingerprint : String
  pub key_type : String
  pub hsm_count : ℕ
  pub locations : List Location

pub record Source : Type 0 where
  pub hsm_id : ℤ
  pub hsm_label : String
  pub serial : String
  pub source : String
  pub inventory : Option Inventory

pub record Agg : Type 0 where
  pub key_type : String
  pub locations : List Location
  pub hsms : Dict ℤ Bool

abbrev pub no_agg : Agg
no_agg = record { key_type = ""; locations = []; hsms = [] }

unfoldable pub object_name : Object → String
object_name o =
    if not (o.label == "")
    then o.label
    else if not (o.id == "")
    then "id " +++ o.id
    else "(unnamed)"

abbrev pub location_of : Source → Object → Location
location_of s o = record {
  hsm_id = s.hsm_id;
  hsm_label = s.hsm_label;
  serial = s.serial;
  source = s.source;
  object = object_name o;
  key_type = o.key_type;
}

abbrev pub is_candidate : Object → Bool
is_candidate o = o.class == class_private_key && not (o.public_key_fingerprint == "")

-- What one key adds to its group.
pub sighted : Source → Object → Agg → Agg
sighted s o g = record {
  key_type = if g.key_type == "" then o.key_type else g.key_type;
  locations = g.locations ++ location_of s o ∷ [];
  hsms = insert s.hsm_id true g.hsms;
}

pub note : Source → Dict String Agg → Object → Dict String Agg
note s m o =
    if not (o.class == class_private_key) || o.public_key_fingerprint == ""
    then m
    else insert o.public_key_fingerprint
        (sighted s o (or_zero no_agg (lookup o.public_key_fingerprint m))) m

pub note_objects : Source → Dict String Agg → List Object → Dict String Agg
note_objects s m [] = m
note_objects s m (o ∷ os) = note_objects s (note s m o) os

pub note_sources : Dict String Agg → List Source → Dict String Agg
note_sources m [] = m
note_sources m (s ∷ ss) =
    note_sources (elim s.inventory [ none ↦ m | some inv ↦ note_objects s m inv.objects ]) ss

abbrev pub nearer : Location → Location → Bool
nearer a b =
    if not (eq_ℤ a.hsm_id b.hsm_id) then ltb_ℤ a.hsm_id b.hsm_id else str_lt a.object b.object

abbrev pub wider : SharedKey → SharedKey → Bool
wider a b =
    if not (eqb a.hsm_count b.hsm_count)
    then ltb b.hsm_count a.hsm_count
    else str_lt a.fingerprint b.fingerprint

pub shared : Dict String Agg → List SharedKey
shared [] = []
shared ((fp, g) ∷ m) =
    let rest = shared m in
    if ltb (length g.hsms) 2
    then rest
    else record {
      fingerprint = fp;
      key_type = g.key_type;
      hsm_count = length g.hsms;
      locations = sort_by nearer g.locations;
    }
      ∷ rest

unfoldable pub detect : List Source → List SharedKey
detect sources = sort_by wider (shared (note_sources [] sources))
