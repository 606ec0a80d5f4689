-- ===== src/Snapshot.antt =====
-- internal/snapshot/diff.go: the drift between two scans of one token. A loop over a map is
-- modelled on the map's entries in the order of insertion, and its result is sorted as the code
-- sorts it.
pub mod Mechanisms
pub mod Balance
pub mod Unchanged
use hsm_doctor.Base.{
  ℕ, ◌+◌, String, Bool, true, false, not, Option, none, some, List, [], ◌∷◌, ◌++◌, ◌&&◌, ◌==◌,
  if◌then◌else◌, map, length, drop, keep,
}
use hsm_doctor.Base.Sort.{sort_by}
use hsm_doctor.Base.Dict.{Dict, keys, lookup, insert, or_zero, string_eq}
use hsm_doctor.Base.Text.{◌+++◌, decimal, str_lt}
use hsm_doctor.Base.Clock.{Time, Format}
use hsm_doctor.Inventory.{Inventory, Object, TokenInfo, CertInfo}
use hsm_doctor.Policy.Evaluate.{object_ref}

pub record FieldChange : Type 0 where
  pub object : String
  pub field : String
  pub old : String
  pub new : String

pub record Diff : Type 0 where
  pub old_scanned_at : Time
  pub new_scanned_at : Time
  pub token_changes : List FieldChange
  pub mechanisms_added : List String
  pub mechanisms_removed : List String
  pub objects_added : List String
  pub objects_removed : List String
  pub object_changes : List FieldChange

abbrev pub none_left : {A : Type 0} → List A → Bool
none_left [] = true
none_left (x ∷ xs) = false

unfoldable pub empty : Diff → Bool
empty d =
    none_left d.token_changes
    && none_left d.mechanisms_added
    && none_left d.mechanisms_removed
    && none_left d.objects_added
    && none_left d.objects_removed
    && none_left d.object_changes

unfoldable pub count : Diff → ℕ
count d =
    length d.token_changes
    + length d.mechanisms_added
    + length d.mechanisms_removed
    + length d.objects_added
    + length d.objects_removed
    + length d.object_changes

-- Class, label and CKA_ID with a zero byte between them.
unfoldable pub object_key : Object → String
object_key o = o.class +++ "\0" +++ o.label +++ "\0" +++ o.id

-- The test `o != n` of both loops over pairs.
abbrev pub change : String → String → String → String → List FieldChange
change object field old new =
    if old == new then [] else record { object = object; field = field; old = old; new = new } ∷ []

unfoldable pub token_changes : TokenInfo → TokenInfo → List FieldChange
token_changes o n =
    change "" "token label" o.label n.label
    ++ change "" "serial number" o.serial_number n.serial_number
    ++ change "" "model" o.model n.model
    ++ change "" "firmware version" o.firmware_version n.firmware_version
    ++ change "" "hardware version" o.hardware_version n.hardware_version

pub compare_token : Inventory → Inventory → Diff → Diff
compare_token old new d = elim old.slot.token [
  | none ↦ d
  | some o ↦ elim new.slot.token [
    | none ↦ d
    | some n ↦ record d { token_changes = d.token_changes ++ token_changes o n }
  ]
]

-- `set[name] = true` for each name
pub add_names : Dict String Bool → List String → Dict String Bool
add_names s [] = s
add_names s (n ∷ ns) = add_names (insert n true s) ns

abbrev pub name_set : Inventory → Dict String Bool
name_set inv = add_names [] (map (λ m. m.name) inv.mechanisms)

-- The names of one set that the other does not hold.
unfoldable pub only_in : Dict String Bool → Dict String Bool → List String
only_in s other = keep (λ n. not (or_zero false (lookup n other))) (keys s)

pub compare_mechanisms : Inventory → Inventory → Diff → Diff
compare_mechanisms old new d = record d {
  mechanisms_added = sort_by str_lt (d.mechanisms_added ++ only_in (name_set new) (name_set old));
  mechanisms_removed =
      sort_by str_lt (d.mechanisms_removed ++ only_in (name_set old) (name_set new));
}

pub group : Dict String (List Object) → List Object → Dict String (List Object)
group m [] = m
group m (o ∷ os) =
    group (insert (object_key o) (or_zero [] (lookup (object_key o) m) ++ o ∷ []) m) os

unfoldable pub fmt_bool : Option Bool → String
fmt_bool none = "(not exposed)"
fmt_bool (some true) = "true"
fmt_bool (some false) = "false"

unfoldable pub cert_changes : Format → String → CertInfo → CertInfo → List FieldChange
cert_changes fmt ref o n =
    change ref "certificate subject" o.subject n.subject
    ++ change ref "certificate expiry" (fmt.date o.not_after) (fmt.date n.not_after)
    ++ change ref "certificate serial" o.serial_number n.serial_number

-- Certificates are compared where both objects have one.
pub both_certs : Format → String → Option CertInfo → Option CertInfo → List FieldChange
both_certs fmt ref none _ = []
both_certs fmt ref (some o) none = []
both_certs fmt ref (some o) (some n) = cert_changes fmt ref o n

unfoldable pub bool_changes : String → Object → Object → List FieldChange
bool_changes ref o n =
    change ref "CKA_SENSITIVE" (fmt_bool o.sensitive) (fmt_bool n.sensitive)
    ++ change ref "CKA_EXTRACTABLE" (fmt_bool o.extractable) (fmt_bool n.extractable)
    ++ change ref "CKA_SIGN" (fmt_bool o.sign) (fmt_bool n.sign)
    ++ change ref "CKA_VERIFY" (fmt_bool o.verify) (fmt_bool n.verify)
    ++ change ref "CKA_ENCRYPT" (fmt_bool o.encrypt) (fmt_bool n.encrypt)
    ++ change ref "CKA_DECRYPT" (fmt_bool o.decrypt) (fmt_bool n.decrypt)
    ++ change ref "CKA_WRAP" (fmt_bool o.wrap) (fmt_bool n.wrap)
    ++ change ref "CKA_UNWRAP" (fmt_bool o.unwrap) (fmt_bool n.unwrap)
    ++ change ref "CKA_DERIVE" (fmt_bool o.derive) (fmt_bool n.derive)
    ++ change ref "CKA_MODIFIABLE" (fmt_bool o.modifiable) (fmt_bool n.modifiable)

unfoldable pub attr_changes : Format → Object → Object → List FieldChange
attr_changes fmt o n =
    let ref = object_ref n in
    change ref "key type" o.key_type n.key_type
    ++ change ref "key size" (decimal o.key_bits) (decimal n.key_bits)
    ++ change ref "curve" o.curve n.curve
    ++ bool_changes ref o n
    ++ both_certs fmt ref o.certificate n.certificate

-- The objects that both scans have are compared one to one, where there is one of each.
unfoldable pub paired_changes : Format → List Object → List Object → List FieldChange
paired_changes fmt (o ∷ []) (n ∷ []) = attr_changes fmt o n
paired_changes fmt _ _ = []

abbrev pub duplicates : List Object → List String
duplicates os = map (λ o. object_ref o +++ " (duplicate)") os

-- The body of the loop over the keys: the three cases of the switch.
pub compare_group : Format → List Object → List Object → Diff → Diff
compare_group fmt [] news d = record d { objects_added = d.objects_added ++ map object_ref news }
compare_group fmt (o ∷ os) [] d = record d {
  objects_removed = d.objects_removed ++ map object_ref (o ∷ os);
}
compare_group fmt (o ∷ os) (n ∷ ns) d = record d {
  object_changes = d.object_changes ++ paired_changes fmt (o ∷ os) (n ∷ ns);
  objects_added = d.objects_added ++ duplicates (drop (length (o ∷ os)) (n ∷ ns));
  objects_removed = d.objects_removed ++ duplicates (drop (length (n ∷ ns)) (o ∷ os));
}

module _ (fmt : Format) (old new : Dict String (List Object)) where
  pub compare_groups : List String → Diff → Diff
  compare_groups [] d = d
  compare_groups (k ∷ ks) d =
      compare_groups ks
        (compare_group fmt (or_zero [] (lookup k old)) (or_zero [] (lookup k new)) d)

abbrev pub all_keys : Dict String (List Object) → Dict String (List Object) → List String
all_keys old new = sort_by str_lt (keys (add_names (add_names [] (keys old)) (keys new)))

pub compare_objects : Format → Inventory → Inventory → Diff → Diff
compare_objects fmt old new d =
    let olds = group [] old.objects in
    let news = group [] new.objects in compare_groups fmt olds news (all_keys olds news) d

abbrev pub no_drift : Time → Time → Diff
no_drift old new = record {
  old_scanned_at = old;
  new_scanned_at = new;
  token_changes = [];
  mechanisms_added = [];
  mechanisms_removed = [];
  objects_added = [];
  objects_removed = [];
  object_changes = [];
}

unfoldable pub compare : Format → Inventory → Inventory → Diff
compare fmt old new =
    compare_objects fmt old new
      (compare_mechanisms old new (compare_token old new (no_drift old.scanned_at new.scanned_at)))
