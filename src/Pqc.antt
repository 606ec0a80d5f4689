-- ===== src/Pqc.antt =====
-- internal/pqc/detect.go, internal/pqc/quantum.go and the families of internal/pqc/constants.go:
-- which post-quantum algorithms a token offers, and how exposed its keys are.
pub mod Laws
use hsm_doctor.Base.{
  ℕ, zero, suc, ◌+◌, ◌*◌, ◌/◌, ◌%◌, String, Bool, true, false, not, Option, none, some, List, [],
  ◌∷◌, ◌++◌, ◌&&◌, ◌||◌, ◌==◌, eqb, ltb, leb, if◌then◌else◌, map, get_or, keep, any,
}
use hsm_doctor.Base.Dict.{Dict, lookup, insert, or_zero, nat_eq, string_eq}
use hsm_doctor.Base.Text.{◌+++◌, decimal}
use hsm_doctor.Inventory.{
  Inventory, Object, CertInfo, Mechanism, class_private_key, class_certificate,
}
use hsm_doctor.Trace.Report.{one_of}

pub data Verdict : Type 0 where
  ready partial_support not_ready : Verdict

-- `ParamSets`, which the key generation uses, is left out.
pub record Family : Type 0 where
  pub name : String
  pub kind : String
  pub fips : String
  pub key_gen : ℕ
  pub op : ℕ
  pub extra : List ℕ

pub record FamilyStatus : Type 0 where
  pub family : String
  pub kind : String
  pub fips : String
  pub advertised : Bool
  pub mechanisms : List String
  pub incomplete : Bool

-- `CryptokiVersion`, which `Detect` leaves empty, is left out.
pub record Detection : Type 0 where
  pub families : List FamilyStatus
  pub vendor_defined : List String
  pub verdict : Verdict

abbrev pub families : List Family
families =
    record { name = "ML-KEM"; kind = "kem"; fips = "FIPS 203"; key_gen = 15; op = 23; extra = [] }
    ∷ record {
      name = "ML-DSA";
      kind = "signature";
      fips = "FIPS 204";
      key_gen = 28;
      op = 29;
      extra = 31 ∷ [];
    }
    ∷ record {
      name = "SLH-DSA";
      kind = "signature";
      fips = "FIPS 205";
      key_gen = 45;
      op = 46;
      extra = 52 ∷ [];
    }
    ∷ []

-- `mechanismDisplayNames`, and "" for a code that it does not name.
unfoldable pub display_name : ℕ → String
display_name code =
    if eqb code 15
    then "CKM_ML_KEM_KEY_PAIR_GEN"
    else if eqb code 23
    then "CKM_ML_KEM"
    else if eqb code 28
    then "CKM_ML_DSA_KEY_PAIR_GEN"
    else if eqb code 29
    then "CKM_ML_DSA"
    else if eqb code 31
    then "CKM_HASH_ML_DSA"
    else if eqb code 45
    then "CKM_SLH_DSA_KEY_PAIR_GEN"
    else if eqb code 46
    then "CKM_SLH_DSA"
    else if eqb code 52
    then "CKM_HASH_SLH_DSA"
    else ""

abbrev hex_digits : List String
hex_digits =
    "0" ∷ "1" ∷ "2" ∷ "3" ∷ "4" ∷ "5" ∷ "6" ∷ "7" ∷ "8" ∷ "9" ∷ "A" ∷ "B" ∷ "C" ∷ "D" ∷ "E" ∷ "F"
    ∷ []

-- `%08X` of a code that has eight digits or more, as those of the vendor range have; a code has
-- 64 bits, so 16 rounds are enough.
pub hex : ℕ → ℕ → String → String
hex zero n acc = acc
hex (suc f) n acc =
    let rest = hex f (n / 16) (get_or hex_digits (n % 16) "" +++ acc) in
    if eqb n 0 then acc else rest

-- The set `available`.
pub available : Dict ℕ Bool → List Mechanism → Dict ℕ Bool
available s [] = s
available s (m ∷ ms) = available (insert m.code true s) ms

unfoldable pub vendor_range : List Mechanism → List String
vendor_range [] = []
vendor_range (m ∷ ms) =
    let rest = vendor_range ms in
    if leb 2147483648 m.code then ("0x" +++ hex 16 m.code "") ∷ rest else rest

abbrev pub is_available : Dict ℕ Bool → ℕ → Bool
is_available s code = or_zero false (lookup code s)

abbrev pub named : Bool → ℕ → List String
named b code = if b then display_name code ∷ [] else []

-- The body of the loop over the families.
unfoldable pub family_status : Dict ℕ Bool → Family → FamilyStatus
family_status s f =
    let has_key_gen = is_available s f.key_gen in
    let has_op = is_available s f.op in
    record {
      family = f.name;
      kind = f.kind;
      fips = f.fips;
      advertised = has_key_gen && has_op;
      mechanisms =
          named has_key_gen f.key_gen
          ++ named has_op f.op
          ++ map display_name (keep (is_available s) f.extra);
      incomplete = (has_key_gen || has_op) && not (has_key_gen && has_op);
    }

-- `byName`: a later family of one name replaces an earlier one.
pub by_name : Dict String Bool → List FamilyStatus → Dict String Bool
by_name m [] = m
by_name m (f ∷ fs) = by_name (insert f.family f.advertised m) fs

unfoldable pub verdict : List FamilyStatus → Verdict
verdict fs =
    let names = by_name [] fs in
    if or_zero false (lookup "ML-KEM" names) && or_zero false (lookup "ML-DSA" names)
    then ready
    else if any (λ f. f.advertised) fs
    then partial_support
    else not_ready

unfoldable pub detect : List Mechanism → Detection
detect mechs =
    let found = map (family_status (available [] mechs)) families in
    record { families = found; vendor_defined = vendor_range mechs; verdict = verdict found }

pub record Exposure : Type 0 where
  pub total_private_keys : ℕ
  pub classical_private_keys : ℕ
  pub pqc_private_keys : ℕ
  pub harvest_now_decrypt_later : ℕ
  pub classical_certificates : ℕ
  pub summary : String

abbrev pub classical_key_types : List String
classical_key_types = "RSA" ∷ "EC" ∷ "DSA" ∷ "DH" ∷ []

abbrev pub pqc_key_types : List String
pqc_key_types = "ML-KEM" ∷ "ML-DSA" ∷ "SLH-DSA" ∷ []

abbrev pub is_true : Option Bool → Bool
is_true none = false
is_true (some b) = b

pub count_private : Exposure → Object → Exposure
count_private e o =
    let counted = record e { total_private_keys = e.total_private_keys + 1 } in
    if one_of classical_key_types o.key_type
    then record counted {
      classical_private_keys = e.classical_private_keys + 1;
      harvest_now_decrypt_later =
          if is_true o.decrypt || is_true o.unwrap
          then e.harvest_now_decrypt_later + 1
          else e.harvest_now_decrypt_later;
    }
    else if one_of pqc_key_types o.key_type
    then record counted { pqc_private_keys = e.pqc_private_keys + 1 }
    else counted

abbrev pub is_classical_cert : CertInfo → Bool
is_classical_cert c = not (c.public_key_algorithm == "") && not (c.public_key_algorithm == "0")

pub count_cert : Exposure → Option CertInfo → Exposure
count_cert e none = e
count_cert e (some c) =
    if is_classical_cert c
    then record e { classical_certificates = e.classical_certificates + 1 }
    else e

-- The body of the loop of `Assess`.
pub count_object : Exposure → Object → Exposure
count_object e o =
    if o.class == class_private_key
    then count_private e o
    else if o.class == class_certificate
    then count_cert e o.certificate
    else e

pub count_objects : Exposure → List Object → Exposure
count_objects e [] = e
count_objects e (o ∷ os) = count_objects (count_object e o) os

abbrev pub outlook : Verdict → String
outlook not_ready =
    ". The token advertises no PQC mechanisms: there is no migration path on this device yet."
outlook partial_support =
    ". The token advertises some PQC mechanisms: partial migration is possible."
outlook ready = ". The token advertises ML-KEM and ML-DSA: migration can begin."

abbrev pub no_keys : Verdict → String
no_keys not_ready =
    "No private keys stored; the token advertises no PQC mechanisms, so post-quantum keys cannot be created on this device yet."
no_keys _ =
    "No private keys stored; the token already advertises PQC mechanisms, so new keys can be created post-quantum from day one."

unfoldable pub summarize : Exposure → Detection → String
summarize e det =
    if eqb e.total_private_keys 0
    then no_keys det.verdict
    else decimal e.classical_private_keys
      +++ " of "
      +++ decimal e.total_private_keys
      +++ " private keys ("
      +++ decimal (100 * e.classical_private_keys / e.total_private_keys)
      +++ "%) use quantum-vulnerable algorithms"
      +++ (if ltb 0 e.harvest_now_decrypt_later
          then "; "
            +++ decimal e.harvest_now_decrypt_later
            +++ " of them can decrypt or unwrap and are exposed to harvest-now-decrypt-later attacks"
          else "")
      +++ outlook det.verdict

abbrev pub no_exposure : Exposure
no_exposure = record {
  total_private_keys = 0;
  classical_private_keys = 0;
  pqc_private_keys = 0;
  harvest_now_decrypt_later = 0;
  classical_certificates = 0;
  summary = "";
}

unfoldable pub assess : Inventory → Detection → Exposure
assess inv det =
    let e = count_objects no_exposure inv.objects in record e { summary = summarize e det }
