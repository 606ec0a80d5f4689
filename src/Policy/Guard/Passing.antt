-- ===== src/Policy/Guard/Passing.antt =====
-- internal/policy/eval.go: when each guard of `matchObject` lets an object through.
use hsm_doctor.Base.{
  ℕ, ◌<◌, String, ◌≡◌, refl, ◌≢◌, ◌↔◌, ◌⊎◌, Bool, true, false, Option, none, some, List, [], ◌∷◌,
  ◌==◌, eq_iff, arith, eqb, all, Elem, Bool-cases, inl, inr, sym,
}
use mathlib.Core.Path.{subst}
use hsm_doctor.Base.Int.{ℤ, pos, ◌≤ℤ◌, ◌<ℤ◌, ltb_ℤ, to_uint}
use hsm_doctor.Inventory.{CertInfo, contains}
use hsm_doctor.Policy.Guard.{
  Check, check_text, check_in, check_not_in, check_attr, check_key_size, with_cert, check_cert_fact,
  check_cert_limit, check_cert_in, check_fact, check_cert_key_size, run_checks,
}

abbrev pub passes : Check → Bool
passes none = false
passes (some ds) = true

-- The guards run to the end exactly when each one lets the object through.
pub run_checks-passes : (cs : List Check) → passes (run_checks cs) ≡ all passes cs
unfolding run_checks
run_checks-passes [] = refl
run_checks-passes (none ∷ cs) = refl
run_checks-passes (some ds ∷ cs) = ground (arith, run_checks-passes cs)

pub contains_iff : (l : List String) (v : String) → (contains l v ≡ true) ↔ Elem v l
unfolding contains
contains_iff [] v = ground arith
contains_iff (x ∷ l) v = elim (Bool-cases (x == v)) [
  | inl e ↦ rw e (λ t. inl (sym ((eq_iff x v).0 e)), λ m. refl)
  | inr e ↦
      let (to, from) = contains_iff l v in
      rw e (λ t. inr (to t), elim [ inl p ↦ cc ((eq_iff x v).1 (sym p)) | inr m ↦ from m ])
]

pub check_text_iff :
    (want have : String) → (passes (check_text want have) ≡ true) ↔ ((want ≡ "") ⊎ (have ≡ want))
unfolding check_text
check_text_iff want have = ground (arith, eq_iff want "", eq_iff have want)

pub check_in_iff :
    (list : List String) (have prefix : String)
    → (passes (check_in list have prefix) ≡ true) ↔ ((list ≡ []) ⊎ (have ≢ "") × Elem have list)
unfolding check_in
check_in_iff [] have prefix = ground arith
check_in_iff (x ∷ list) have prefix = ground (arith, eq_iff have "", contains_iff (x ∷ list) have)

pub check_not_in_iff :
    (list : List String) (have : String)
    → (passes (check_not_in list have) ≡ true) ↔ ((list ≡ []) ⊎ (have ≢ "") × ¬ (Elem have list))
unfolding check_not_in
check_not_in_iff [] have = ground arith
check_not_in_iff (x ∷ list) have = ground (arith, eq_iff have "", contains_iff (x ∷ list) have)

pub check_attr_iff :
    (want attr : Option Bool) (name : String)
    → (passes (check_attr want attr name) ≡ true) ↔ ((want ≡ none) ⊎ (attr ≡ want))
unfolding check_attr
check_attr_iff want attr name = ground arith

pub check_key_size_iff :
    (limit bits : ℕ)
    → (passes (check_key_size limit bits) ≡ true) ↔ ((limit ≡ 0) ⊎ (bits ≢ 0) × (bits < limit))
unfolding check_key_size
check_key_size_iff limit bits = ground arith

pub check_fact_iff :
    (want : Option Bool) (fact : Bool) (detail : Check)
    → passes detail ≡ true
    → (passes (check_fact want fact detail) ≡ true) ↔ ((want ≡ none) ⊎ (want ≡ some fact))
unfolding check_fact
check_fact_iff want fact detail h = ground arith

-- The object has certificate details, and they satisfy `P`.
abbrev pub WithCert : Option CertInfo → (CertInfo → Type 0) → Type 0
WithCert cert P = (c : CertInfo) × (cert ≡ some c) × P c

module _ (P : CertInfo → Type 0) (k : CertInfo → Check)
    (h : (c : CertInfo) → (passes (k c) ≡ true) ↔ P c) where
  pub with_cert_iff :
      (cert : Option CertInfo) → (passes (with_cert cert k) ≡ true) ↔ WithCert cert P
  unfolding with_cert
  with_cert_iff none = (λ t. cc, λ w. cc (w.1))
  with_cert_iff (some c) =
      (λ t. (c, refl, (h c).0 t), λ (d, e, p). let same : d ≡ c = cc in (h c).1 (subst P same p))

  pub check_cert_limit_iff :
      (limit : ℤ) (cert : Option CertInfo)
      → (passes (check_cert_limit limit cert k) ≡ true)
        ↔ ((limit ≤ℤ pos 0) ⊎ (pos 0 <ℤ limit) × WithCert cert P)
  unfolding check_cert_limit
  check_cert_limit_iff limit cert = elim (Bool-cases (ltb_ℤ (pos 0) limit)) [
    | inl e ↦
        let (to, from) = with_cert_iff cert in
        let low : pos 0 <ℤ limit = ground arith in
        rw e (λ t. inr (low, to t), elim [ inl p ↦ absurd (omega arith) | inr w ↦ from w.1 ])
    | inr e ↦ rw e (λ t. inl (ground arith), λ t. refl)
  ]

pub check_cert_fact_iff :
    (want : Option Bool) (cert : Option CertInfo) (fact : CertInfo → Bool)
    (detail : CertInfo → Check)
    → ((c : CertInfo) → passes (detail c) ≡ true)
    → (passes (check_cert_fact want cert fact detail) ≡ true)
      ↔ ((want ≡ none) ⊎ WithCert cert (λ c. want ≡ some (fact c)))
unfolding check_cert_fact
check_cert_fact_iff none cert fact detail h = (λ t. inl refl, λ t. refl)
check_cert_fact_iff (some want) cert fact detail h =
    let set : some want ≢ none = λ p. cc in
    let (to, from) =
      with_cert_iff (λ c. some want ≡ some (fact c)) _ (λ c. ground (arith, h c)) cert in
    (λ t. inr (to t), elim [ inl p ↦ absurd (set p) | inr w ↦ from w ])

pub check_cert_in_iff :
    (list : List String) (cert : Option CertInfo) (value : CertInfo → String) (prefix : String)
    → (passes (check_cert_in list cert value prefix) ≡ true)
      ↔ ((list ≡ []) ⊎ WithCert cert (λ c. Elem (value c) list))
unfolding check_cert_in
check_cert_in_iff [] cert value prefix = (λ t. inl refl, λ t. refl)
check_cert_in_iff (x ∷ list) cert value prefix =
    let set : x ∷ list ≢ [] = λ p. cc in
    let (to, from) =
      with_cert_iff (λ c. Elem (value c) (x ∷ list)) _
        (λ c. ground (arith, contains_iff (x ∷ list) (value c))) cert in
    (λ t. inr (to t), elim [ inl p ↦ absurd (set p) | inr w ↦ from w ])

pub check_cert_key_size_iff :
    (limit : ℕ) (cert : Option CertInfo)
    → (passes (check_cert_key_size limit cert) ≡ true) ↔ (
        (limit ≡ 0)
        ⊎ (limit ≢ 0)
          × WithCert cert (λ c. (c.public_key_bits ≢ pos 0) × (to_uint c.public_key_bits < limit)))
unfolding check_cert_key_size
check_cert_key_size_iff limit cert = elim (Bool-cases (eqb limit 0)) [
  | inl e ↦ rw e (λ t. inl (ground arith), λ t. refl)
  | inr e ↦
      let set : limit ≢ 0 = ground arith in
      let (to, from) =
        with_cert_iff (λ c. (c.public_key_bits ≢ pos 0) × (to_uint c.public_key_bits < limit)) _
          (λ c. ground arith) cert in
      rw e (λ t. inr (set, to t), elim [ inl p ↦ absurd (set p) | inr w ↦ from w.1 ])
]
