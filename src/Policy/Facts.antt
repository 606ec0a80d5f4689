-- ===== src/Policy/Facts.antt =====
-- internal/policy/eval.go: what all rules share about one inventory, `facts`.
pub mod Laws
pub mod Relations
use hsm_doctor.Base.{
  ℕ, ◌+◌, String, Bool, true, false, not, none, some, List, [], ◌∷◌, ◌++◌, ◌&&◌, ◌||◌, ◌==◌, ltb,
  if◌then◌else◌,
}
use hsm_doctor.Base.Dict.{Dict, lookup, insert, or_zero, string_eq}
use hsm_doctor.Base.Clock.{Time}
use hsm_doctor.Inventory.{
  Inventory, Object, CertInfo, contains, class_private_key, class_public_key, class_certificate,
}

pub record Facts : Type 0 where
  pub now : Time
  -- class, then label, to the number of objects
  pub duplicate_labels : Dict String (Dict String ℕ)
  -- CKA_ID to the set of classes
  pub id_owners : Dict String (Dict String Bool)
  -- CKA_ID to the fingerprints of its keys
  pub key_fingerprints : Dict String (List String)

-- `m[a][b]`, with the zero value where a key is missing
unfoldable pub lookup₂ : {V : Type 0} → V → String → String → Dict String (Dict String V) → V
lookup₂ z a b m = or_zero z (lookup b (or_zero [] (lookup a m)))

-- `m[a][b] = v`, the inner map made where it is missing
unfoldable pub insert₂ :
    {V : Type 0} → String → String → V → Dict String (Dict String V) → Dict String (Dict String V)
insert₂ a b v m = insert a (insert b v (or_zero [] (lookup a m))) m

unfoldable pub note_label : Object → Facts → Facts
note_label o f = if o.label == "" then f else record f {
  duplicate_labels =
      insert₂ o.class o.label (lookup₂ 0 o.class o.label f.duplicate_labels + 1) f.duplicate_labels;
}

unfoldable pub is_key : Object → Bool
is_key o = o.class == class_private_key || o.class == class_public_key

unfoldable pub note_owner : Object → Facts → Facts
note_owner o f =
    if o.id == "" then f else record f { id_owners = insert₂ o.id o.class true f.id_owners }

unfoldable pub note_fingerprint : Object → Facts → Facts
note_fingerprint o f =
    if o.id == "" || o.public_key_fingerprint == "" || not (is_key o) then f else record f {
      key_fingerprints =
          insert o.id (or_zero [] (lookup o.id f.key_fingerprints) ++ o.public_key_fingerprint ∷ [])
            f.key_fingerprints;
    }

-- The body of the loop of `buildFacts`.
unfoldable pub note : Facts → Object → Facts
note f o = note_fingerprint o (note_owner o (note_label o f))

unfoldable pub note_all : Facts → List Object → Facts
note_all f [] = f
note_all f (o ∷ rest) = note_all (note f o) rest

abbrev pub no_facts : Time → Facts
no_facts now = record { now = now; duplicate_labels = []; id_owners = []; key_fingerprints = [] }

unfoldable pub build_facts : Inventory → Time → Facts
build_facts inv now = note_all (no_facts now) inv.objects

unfoldable pub fingerprints_of : Facts → String → List String
fingerprints_of f id = or_zero [] (lookup id f.key_fingerprints)

-- The tests that follow the nil check of `certKeyMismatch`.
unfoldable pub mismatch : Facts → Object → CertInfo → Bool
mismatch f o c = if c.public_key_fingerprint == "" then false else elim (fingerprints_of f o.id) [
  | [] ↦ false
  | fp ∷ fps ↦ not (contains (fp ∷ fps) c.public_key_fingerprint)
]

unfoldable pub cert_key_mismatch : Facts → Object → Bool
cert_key_mismatch f o =
    if not (o.class == class_certificate) || o.id == ""
    then false
    else elim o.certificate [ none ↦ false | some c ↦ mismatch f o c ]

unfoldable pub is_duplicate_label : Facts → Object → Bool
is_duplicate_label f o = not (o.label == "") && ltb 1 (lookup₂ 0 o.class o.label f.duplicate_labels)

-- `f.idOwners[id][class]`
unfoldable pub owned : Facts → String → String → Bool
owned f id class = lookup₂ false id class f.id_owners

unfoldable pub is_orphan : Facts → Object → Bool
is_orphan f o =
    if o.class == class_private_key
    then if o.id == ""
      then true
      else not (owned f o.id class_certificate) && not (owned f o.id class_public_key)
    else if o.class == class_certificate
    then if o.id == "" then true else not (owned f o.id class_private_key)
    else false
