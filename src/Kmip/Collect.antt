-- ===== src/Kmip/Collect.antt =====
-- internal/kmip/collect.go and the response handling of internal/kmip/client.go. What the TTLV
-- library has parsed is a tree; the connection, which sends a request and reads the response, and
-- the names of enumeration values in the library kmip14 are parameters.
pub mod Versions
pub mod Objects
use Prim.Native.Nat.{bit_and}
use hsm_doctor.Base.{
  ℕ, ◌-◌, ◌%◌, ◌^◌, String, Bool, false, not, Option, none, some, List, [], ◌∷◌, ◌++◌, ◌&&◌, ◌||◌,
  ◌==◌, eqb, if◌then◌else◌,
}
use hsm_doctor.Base.Int.{ℤ, pos, negsuc, eq_ℤ, ltb_ℤ, leb_ℤ}
use hsm_doctor.Base.Sort.{sort_by}
use hsm_doctor.Base.Text.{◌+++◌, str_lt, decimal_ℤ}
use hsm_doctor.Base.Clock.{Time}
use hsm_doctor.Base.Fallible.{Fallible, done, failed, ◌>>=◌}
use hsm_doctor.Kmip.{Object, Inventory}

pub data Tag : Type 0 where
  protocol_version version_major version_minor unique_identifier : Tag
  attribute attribute_name attribute_value name_value : Tag
  batch_item result_status result_message response_payload : Tag
  other : Tag

-- A TTLV value: its tag, what it reads as (an integer, a text, an instant), and its parts.
mutual
  pub data Ttlv : Type 0 where
    node : Tag → ℤ → String → Time → Items → Ttlv

  pub data Items : Type 0 where
    nil : Items
    cons : Ttlv → Items → Items

-- The inner loop of `discoverVersions`.
unfoldable pub version_of : ℤ × ℤ → Items → ℤ × ℤ
version_of v nil = v
version_of (major, minor) (cons (node version_major n text date parts) rest) =
    version_of (n, minor) rest
version_of (major, minor) (cons (node version_minor n text date parts) rest) =
    version_of (major, n) rest
version_of v (cons (node tag n text date parts) rest) = version_of v rest

-- Only 1.0 to 1.4 are considered, and the highest is kept.
unfoldable pub consider : ℤ × ℤ → ℤ × ℤ → ℤ × ℤ
consider (best_major, best_minor) (major, minor) =
    if eq_ℤ major (pos 1)
      && leb_ℤ minor (pos 4)
      && (ltb_ℤ best_major major || eq_ℤ major best_major && ltb_ℤ best_minor minor)
    then (major, minor)
    else (best_major, best_minor)

-- The outer loop.
unfoldable pub best_version : ℤ × ℤ → Items → ℤ × ℤ
best_version best nil = best
best_version best (cons (node protocol_version n text date parts) rest) =
    best_version (consider best (version_of (pos 0, pos 0) parts)) rest
best_version best (cons (node tag n text date parts) rest) = best_version best rest

-- The version that the client has after `discoverVersions`.
unfoldable pub negotiate : ℤ × ℤ → Items → ℤ × ℤ
negotiate current payload =
    let (major, minor) = best_version (pos 0, pos 0) payload in
    if not (eq_ℤ major (pos 0)) then (major, minor) else current

unfoldable pub located : Items → List String
located nil = []
located (cons (node unique_identifier n text date parts) rest) = text ∷ located rest
located (cons (node tag n text date parts) rest) = located rest

-- A value that is missing, of length 0, is `none`.
unfoldable pub attribute_parts : String × Option Ttlv → Items → String × Option Ttlv
attribute_parts p nil = p
attribute_parts (name, value) (cons (node attribute_name n text date parts) rest) =
    attribute_parts (text, value) rest
attribute_parts (name, value) (cons (node attribute_value n text date parts) rest) =
    attribute_parts (name, some (node attribute_value n text date parts)) rest
attribute_parts p (cons (node tag n text date parts) rest) = attribute_parts p rest

-- What the library kmip14 defines: the names of enumeration values, and the bits of the usages.
pub record Kmip14 : Type 0 where
  pub algorithm : ℤ → String
  pub state : ℤ → String
  pub object_type : ℤ → String
  pub usage_bit : String → ℕ

-- The bits of a 32-bit integer as a number.
abbrev pub to_uint32 : ℤ → ℕ
to_uint32 (pos n) = n % 2 ^ 32
to_uint32 (negsuc n) = 2 ^ 32 - 1 - n % 2 ^ 32

abbrev pub usage_mask : List String
usage_mask = "Sign" ∷ "Verify" ∷ "Encrypt" ∷ "Decrypt" ∷ "WrapKey" ∷ "UnwrapKey" ∷ []

unfoldable pub usage_names_from : (String → ℕ) → ℕ → List String → List String
usage_names_from bit mask [] = []
usage_names_from bit mask (name ∷ rest) =
    let more = usage_names_from bit mask rest in
    if not (eqb (bit_and mask (bit name)) 0) then name ∷ more else more

unfoldable pub usage_mask_names : (String → ℕ) → ℕ → List String
unfolding usage_names_from
usage_mask_names bit mask = usage_names_from bit mask usage_mask

unfoldable pub name_values : List String → Items → List String
name_values names nil = names
name_values names (cons (node name_value n text date parts) rest) =
    name_values (names ++ text ∷ []) rest
name_values names (cons (node tag n text date parts) rest) = name_values names rest

unfoldable pub apply_attribute : Kmip14 → Object → String → Option Ttlv → Object
apply_attribute k obj name none = obj
apply_attribute k obj name (some (node tag n text date parts)) =
    if name == "Cryptographic Algorithm"
    then record obj { algorithm = k.algorithm n }
    else if name == "Cryptographic Length"
    then record obj { length = n }
    else if name == "State"
    then record obj { state = k.state n }
    else if name == "Object Type"
    then record obj { type = k.object_type n }
    else if name == "Cryptographic Usage Mask"
    then record obj { usage_mask = usage_mask_names k.usage_bit (to_uint32 n) }
    else if name == "Name"
    then record obj { names = name_values obj.names parts }
    else if name == "Initial Date"
    then record obj { initial_date = some date }
    else obj

unfoldable pub apply_attributes : Kmip14 → Object → Items → Object
apply_attributes k obj nil = obj
apply_attributes k obj (cons (node attribute n text date parts) rest) =
    let (name, value) = attribute_parts ("", none) parts in
    apply_attributes k (apply_attribute k obj name value) rest
apply_attributes k obj (cons (node tag n text date parts) rest) = apply_attributes k obj rest

abbrev pub new_object : String → Object
new_object id = record {
  id = id;
  type = "";
  algorithm = "";
  length = pos 0;
  state = "";
  usage_mask = [];
  names = [];
  initial_date = none;
}

pub data Request : Type 0 where
  discover_versions : Request
  locate : Request
  get_attributes : String → Request

-- What the loop over a batch item collects: the last status, message and payload in it.
pub record Batch : Type 0 where
  pub status : Option ℤ
  pub message : String
  pub payload : Items

unfoldable pub batch_of : Batch → Items → Batch
batch_of b nil = b
batch_of b (cons (node result_status n text date parts) rest) =
    batch_of (record b { status = some n }) rest
batch_of b (cons (node result_message n text date parts) rest) =
    batch_of (record b { message = text }) rest
batch_of b (cons (node response_payload n text date parts) rest) =
    batch_of (record b { payload = parts }) rest
batch_of b (cons (node tag n text date parts) rest) = batch_of b rest

-- The success status is 0 in KMIP; `status_text` is the library's name of a status.
abbrev pub succeeded : Option ℤ → Bool
succeeded none = false
succeeded (some n) = eq_ℤ n (pos 0)

abbrev status_of : Option ℤ → ℤ
status_of none = pos 0
status_of (some n) = n

unfoldable pub response_of : (ℤ → String) → String → Items → Fallible Items
response_of status_text op nil = failed ("KMIP " +++ op +++ " response had no batch item")
response_of status_text op (cons (node batch_item n text date parts) rest) =
    let b = batch_of (record { status = none; message = ""; payload = nil }) parts in
    if not (succeeded b.status)
    then failed (
        "KMIP "
        +++ op
        +++ " failed: "
        +++ (if b.message == "" then status_text (status_of b.status) else b.message))
    else done b.payload
response_of status_text op (cons (node tag n text date parts) rest) =
    response_of status_text op rest

abbrev pub wrapped : {A : Type 0} → String → Fallible A → Fallible A
wrapped prefix (done a) = done a
wrapped prefix (failed e) = failed (prefix +++ e)

module _ (k : Kmip14) (ask : Request → Fallible Items) where
  unfoldable pub get_object : String → Fallible Object
  get_object id = do
    payload ← ask (get_attributes id)
    done (apply_attributes k (new_object id) payload)

  unfoldable pub get_objects : List String → Fallible (List Object)
  get_objects [] = done []
  get_objects (id ∷ rest) = do
    obj ← wrapped ("get attributes for " +++ id +++ ": ") (get_object id)
    more ← get_objects rest
    done (obj ∷ more)

  -- `Collect` on a connection; a client speaks 1.4 until it has asked.
  unfoldable pub collect : String → Time → Fallible Inventory
  collect endpoint now = do
    versions ← wrapped "discover versions: " (ask discover_versions)
    ids ← wrapped "locate: " (ask locate)
    objects ← get_objects (located ids)
    done (
        let (major, minor) = negotiate (pos 1, pos 4) versions in
        record {
          endpoint = endpoint;
          protocol_version = decimal_ℤ major +++ "." +++ decimal_ℤ minor;
          scanned_at = now;
          objects = sort_by (λ a b. str_lt a.id b.id) objects;
        })
