-- ===== src/Inventory/Curves.antt =====
-- internal/inventory/curves.go: the curve and the key size of an object, from the bytes that a token
-- gives.
use hsm_doctor.Base.{
  ℕ, ◌*◌, ◌/◌, ◌%◌, ◌≡◌, ◌≤◌, refl, String, none, some, List, [], ◌∷◌, ◌++◌, arith, eqb, length,
  get_or, All, if◌then◌else◌,
}
use hsm_doctor.Base.Text.{◌+++◌}
use hsm_doctor.Base.Dict.{Dict, lookup, string_eq}

abbrev pub known_curves : Dict String (String × ℕ)
known_curves =
    ("06052b81040021", ("P-224", 224))
    ∷ ("06082a8648ce3d030107", ("P-256", 256))
    ∷ ("06052b81040022", ("P-384", 384))
    ∷ ("06052b81040023", ("P-521", 521))
    ∷ ("06052b8104000a", ("secp256k1", 256))
    ∷ ("06032b6570", ("Ed25519", 256))
    ∷ ("06032b656e", ("X25519", 256))
    ∷ ("06092b2403030208010107", ("brainpoolP256r1", 256))
    ∷ ("06092b240303020801010b", ("brainpoolP384r1", 384))
    ∷ ("06092b240303020801010d", ("brainpoolP512r1", 512))
    ∷ []

abbrev hex_digit : ℕ → String
hex_digit d =
    get_or
      ("0" ∷ "1" ∷ "2" ∷ "3" ∷ "4" ∷ "5" ∷ "6" ∷ "7" ∷ "8" ∷ "9" ∷ "a" ∷ "b" ∷ "c" ∷ "d" ∷ "e" ∷ "f"
        ∷ [])
      d ""

-- `hex.EncodeToString`
unfoldable pub hex : List ℕ → String
hex [] = ""
hex (b ∷ bs) = hex_digit (b / 16) +++ hex_digit (b % 16) +++ hex bs

unfoldable pub curve_from_ec_params : List ℕ → String × ℕ
curve_from_ec_params [] = ("", 0)
curve_from_ec_params (b ∷ bs) =
    let text = hex (b ∷ bs) in
    elim (lookup text known_curves) [ none ↦ ("unknown(" +++ text +++ ")", 0) | some c ↦ c ]

-- A length is below 2^60, so its eightfold does not wrap around.
unfoldable pub rsa_bits_from_modulus : List ℕ → ℕ
rsa_bits_from_modulus [] = 0
rsa_bits_from_modulus (b ∷ bs) =
    let rest = rsa_bits_from_modulus bs in if eqb b 0 then rest else length (b ∷ bs) * 8

-- Whatever the bytes are, the size has at most eight bits for each.
pub rsa_bits_from_modulus-length : (bs : List ℕ) → rsa_bits_from_modulus bs ≤ length bs * 8
unfolding rsa_bits_from_modulus
rsa_bits_from_modulus-length [] = omega arith
rsa_bits_from_modulus-length (b ∷ bs) = ground (arith, rsa_bits_from_modulus-length bs)

-- Zeros before the other bytes do not change the size.
pub rsa_bits_from_modulus-append :
    (zs bs : List ℕ)
    → All (λ z. z ≡ 0) zs
    → rsa_bits_from_modulus (zs ++ bs) ≡ rsa_bits_from_modulus bs
unfolding rsa_bits_from_modulus
rsa_bits_from_modulus-append [] bs h = refl
rsa_bits_from_modulus-append (z ∷ zs) bs (here, later) =
    ground (arith, rsa_bits_from_modulus-append zs bs later)
