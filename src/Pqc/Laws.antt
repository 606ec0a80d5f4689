-- ===== src/Pqc/Laws.antt =====
-- internal/pqc: the verdict on a token's mechanisms, and the counts of its keys.
use hsm_doctor.Base.{
  ℕ, ◌+◌, ◌≤◌, ◌≡◌, refl, Bool, true, ◌&&◌, ◌||◌, Option, none, some, List, [], ◌∷◌, ◌==◌, eqb,
  arith, any, tally, if◌then◌else◌,
}
use hsm_doctor.Base.Dict.{Dict, lookup, insert, nat_eq, string_eq, lookup-insert}
use hsm_doctor.Inventory.{Inventory, Object, CertInfo, Mechanism, class_private_key}
use hsm_doctor.Pqc.{
  ready, partial_support, not_ready, Family, Detection, available, is_available, family_status,
  by_name, verdict, detect, Exposure, count_private, count_cert, count_object, count_objects,
  no_exposure, assess,
}

-- The token lists a mechanism with this code.
abbrev pub lists : List Mechanism → ℕ → Bool
lists ms code = any (λ m. eqb m.code code) ms

-- The token lists both mechanisms of a family.
abbrev pub supports : List Mechanism → ℕ → ℕ → Bool
supports ms key_gen op = lists ms key_gen && lists ms op

available-lists :
    (code : ℕ) (s : Dict ℕ Bool) (ms : List Mechanism)
    → is_available (available s ms) code ≡ (is_available s code || lists ms code)
unfolding available
available-lists code s [] = ground arith
available-lists code s (m ∷ ms) =
    ground (arith, available-lists code (insert m.code true s) ms, lookup-insert m.code code true s)

available-supports :
    (ms : List Mechanism) (f : Family)
    → (family_status (available [] ms) f).advertised ≡ supports ms f.key_gen f.op
unfolding family_status lookup
available-supports ms f =
    ground (arith, available-lists f.key_gen [] ms, available-lists f.op [] ms)

-- A token is ready when it lists the key generation and the operation of ML-KEM and those of
-- ML-DSA; otherwise it has partial support when it lists both mechanisms of one of the three
-- families, and none when it does not.
pub detect-verdict :
    (ms : List Mechanism)
    → (detect ms).verdict ≡ (
        if supports ms 15 23 && supports ms 28 29
        then ready
        else if supports ms 15 23 || supports ms 28 29 || supports ms 45 46
        then partial_support
        else not_ready)
unfolding detect verdict by_name family_status insert lookup
detect-verdict ms = ground (
  arith,
  available-lists 15 [] ms,
  available-lists 23 [] ms,
  available-lists 28 [] ms,
  available-lists 29 [] ms,
  available-lists 45 [] ms,
  available-lists 46 [] ms,
)

count_cert-bounds :
    (e : Exposure) (c : Option CertInfo)
    → ((count_cert e c).harvest_now_decrypt_later ≡ e.harvest_now_decrypt_later)
      × ((count_cert e c).classical_private_keys ≡ e.classical_private_keys)
      × ((count_cert e c).pqc_private_keys ≡ e.pqc_private_keys)
      × ((count_cert e c).total_private_keys ≡ e.total_private_keys)
unfolding count_cert
count_cert-bounds e none = (refl, refl, refl, refl)
count_cert-bounds e (some c) = ground arith

count_object-bounds :
    (e : Exposure) (o : Object)
    → e.harvest_now_decrypt_later ≤ e.classical_private_keys
    → e.classical_private_keys + e.pqc_private_keys ≤ e.total_private_keys
    → let n = count_object e o in
      (n.harvest_now_decrypt_later ≤ n.classical_private_keys)
      × (n.classical_private_keys + n.pqc_private_keys ≤ n.total_private_keys)
      × (n.total_private_keys
          ≡ e.total_private_keys + (if o.class == class_private_key then 1 else 0))
unfolding count_object count_private
count_object-bounds e o h k = ground (arith, h, k, count_cert-bounds e o.certificate)

count_objects-bounds :
    (e : Exposure) (os : List Object)
    → e.harvest_now_decrypt_later ≤ e.classical_private_keys
    → e.classical_private_keys + e.pqc_private_keys ≤ e.total_private_keys
    → let n = count_objects e os in
      (n.harvest_now_decrypt_later ≤ n.classical_private_keys)
      × (n.classical_private_keys + n.pqc_private_keys ≤ n.total_private_keys)
      × (n.total_private_keys ≡ e.total_private_keys + tally (λ o. o.class == class_private_key) os)
unfolding count_objects
count_objects-bounds e [] h k = (h, k, omega arith)
count_objects-bounds e (o ∷ os) h k =
    let (a, b, c) = count_object-bounds e o h k in
    let (a', b', c') = count_objects-bounds (count_object e o) os a b in
    (a', b', omega (arith, c, c'))

-- The exposed keys are among the classical ones, the classical and the post-quantum keys among
-- all private keys, and these are the objects of their class.
pub assess-bounds :
    (inv : Inventory) (det : Detection)
    → ((assess inv det).harvest_now_decrypt_later ≤ (assess inv det).classical_private_keys)
      × ((assess inv det).classical_private_keys + (assess inv det).pqc_private_keys
          ≤ (assess inv det).total_private_keys)
      × ((assess inv det).total_private_keys
          ≡ tally (λ o. o.class == class_private_key) inv.objects)
unfolding assess
assess-bounds inv det =
    let (a, b, c) = count_objects-bounds no_exposure inv.objects (omega arith) (omega arith) in
    (a, b, omega (arith, c))
