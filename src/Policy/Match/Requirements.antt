-- ===== src/Policy/Match/Requirements.antt =====
-- internal/policy/eval.go: what the fields of a condition ask of an object, one statement each, and
-- that `matchObject` decides all of them together.
use hsm_doctor.Base.{
  ◌<◌, String, ◌≡◌, refl, ◌≢◌, ◌↔◌, ◌⊎◌, Bool, true, false, Option, none, some, List, [], ◌∷◌, ◌++◌,
  arith, all, Elem,
}
use hsm_doctor.Base.Int.{ℤ, pos, ◌≤ℤ◌, ◌<ℤ◌, to_uint}
use hsm_doctor.Base.Clock.{Time, Format, sub, days, before}
use hsm_doctor.Inventory.{Object, CertInfo}
use hsm_doctor.Policy.Condition.{Condition, Rule}
use hsm_doctor.Policy.Facts.{Facts, cert_key_mismatch, is_duplicate_label, is_orphan}
use hsm_doctor.Policy.Guard.{
  Check, lifetime, expires_within, remaining_pct, validity_gt, validity_lt, chain_broken,
  ca_without_keycertsign, if_wanted,
}
use hsm_doctor.Policy.Match.{
  key_checks, attr_checks, validity_checks, cert_checks, relation_checks, object_checks,
  match_object,
}
use hsm_doctor.Policy.Guard.Passing.{
  passes, run_checks-passes, WithCert, check_text_iff, check_in_iff, check_not_in_iff,
  check_attr_iff, check_key_size_iff, check_fact_iff, check_cert_limit_iff, check_cert_fact_iff,
  check_cert_in_iff, check_cert_key_size_iff,
}

-- All statements of a list hold.
abbrev pub AllHold : List (Type 0) → Type 0
AllHold [] = Unit
AllHold (T ∷ Ts) = T × AllHold Ts

-- Each guard decides the statement at its place.
abbrev pub Decides : List Check → List (Type 0) → Type 0
Decides [] [] = Unit
Decides (c ∷ cs) (T ∷ Ts) = ((passes c ≡ true) ↔ T) × Decides cs Ts
Decides _ _ = ⊥

pub all-iff_AllHold :
    (cs : List Check) (Ts : List (Type 0)) → Decides cs Ts → (all passes cs ≡ true) ↔ AllHold Ts
all-iff_AllHold [] [] d = (λ t. tt, λ h. refl)
all-iff_AllHold [] (T ∷ Ts) d = absurd d
all-iff_AllHold (c ∷ cs) [] d = absurd d
all-iff_AllHold (c ∷ cs) (T ∷ Ts) ((to, from), d) =
    let (to', from') = all-iff_AllHold cs Ts d in
    (
      λ t. (to (ground arith), to' (ground arith)),
      λ (h, hs). let p = from h in let q = from' hs in ground arith,
    )

Decides-append :
    (cs ds : List Check) (Ts Us : List (Type 0))
    → Decides cs Ts
    → Decides ds Us
    → Decides (cs ++ ds) (Ts ++ Us)
Decides-append [] ds [] Us d e = e
Decides-append [] ds (T ∷ Ts) Us d e = absurd d
Decides-append (c ∷ cs) ds [] Us d e = absurd d
Decides-append (c ∷ cs) ds (T ∷ Ts) Us (h, d) e = (h, Decides-append cs ds Ts Us d e)

-- An attribute that the condition names is exposed with the same value.
abbrev pub AsWanted : Option Bool → Option Bool → Type 0
AsWanted want attr = (want ≡ none) ⊎ (attr ≡ want)

-- A tri-state condition on a fact of the certificate.
abbrev pub CertWanted : Option Bool → Option CertInfo → (CertInfo → Bool) → Type 0
CertWanted want cert fact = (want ≡ none) ⊎ WithCert cert (λ x. want ≡ some (fact x))

-- A limit that is set, and the certificate meets it.
abbrev pub CertLimit : ℤ → Option CertInfo → (CertInfo → Type 0) → Type 0
CertLimit limit cert P = (limit ≤ℤ pos 0) ⊎ (pos 0 <ℤ limit) × WithCert cert P

abbrev pub OneOf : List String → String → Type 0
OneOf list have = (list ≡ []) ⊎ (have ≢ "") × Elem have list

module _ (fmt : Format) (c : Condition) (o : Object) (f : Facts) where
  abbrev key_requirements : List (Type 0)
  key_requirements =
      ((c.class ≡ "") ⊎ (o.class ≡ c.class))
      ∷ ((c.key_type ≡ "") ⊎ (o.key_type ≡ c.key_type))
      ∷ OneOf c.key_type_in o.key_type
      ∷ OneOf c.curve_in o.curve
      ∷ ((c.curve_not_in ≡ []) ⊎ (o.curve ≢ "") × ¬ (Elem o.curve c.curve_not_in))
      ∷ []

  abbrev attr_requirements : List (Type 0)
  attr_requirements =
      AsWanted c.extractable o.extractable
      ∷ AsWanted c.sensitive o.sensitive
      ∷ AsWanted c.always_sensitive o.always_sensitive
      ∷ AsWanted c.never_extractable o.never_extractable
      ∷ AsWanted c.modifiable o.modifiable
      ∷ AsWanted c.sign o.sign
      ∷ AsWanted c.verify o.verify
      ∷ AsWanted c.encrypt o.encrypt
      ∷ AsWanted c.decrypt o.decrypt
      ∷ AsWanted c.derive o.derive
      ∷ AsWanted c.wrap o.wrap
      ∷ AsWanted c.unwrap o.unwrap
      ∷ ((c.key_size_lt ≡ 0) ⊎ (o.key_bits ≢ 0) × (o.key_bits < c.key_size_lt))
      ∷ []

  abbrev validity_requirements : List (Type 0)
  validity_requirements =
      CertWanted c.cert_expired o.certificate (λ x. before x.not_after f.now)
      ∷ CertLimit c.cert_expires_within_days o.certificate (λ x.
        (pos 0 <ℤ sub x.not_after f.now)
        × (sub x.not_after f.now ≤ℤ days c.cert_expires_within_days))
      ∷ CertLimit c.cert_validity_days_gt o.certificate
          (λ x. days c.cert_validity_days_gt <ℤ lifetime x)
      ∷ CertLimit c.cert_validity_days_lt o.certificate
          (λ x. (pos 0 <ℤ lifetime x) × (lifetime x <ℤ days c.cert_validity_days_lt))
      ∷ CertLimit c.cert_lifetime_remaining_pct_lt o.certificate (λ x.
        (pos 0 <ℤ lifetime x)
        × (pos 0 <ℤ sub x.not_after f.now)
        × (fmt.pct_at_least (sub x.not_after f.now) (lifetime x) c.cert_lifetime_remaining_pct_lt
            ≡ false))
      ∷ []

  abbrev cert_requirements : List (Type 0)
  cert_requirements =
      ((c.cert_sig_alg_in ≡ [])
        ⊎ WithCert o.certificate (λ x. Elem x.signature_algorithm c.cert_sig_alg_in))
      ∷ CertWanted c.cert_is_ca o.certificate (λ x. x.is_ca)
      ∷ CertWanted c.cert_self_signed o.certificate (λ x. x.self_signed)
      ∷ CertWanted c.cert_not_yet_valid o.certificate (λ x. before f.now x.not_before)
      ∷ ((c.cert_key_size_lt ≡ 0)
          ⊎ (c.cert_key_size_lt ≢ 0)
            × WithCert o.certificate (λ x.
              (x.public_key_bits ≢ pos 0) × (to_uint x.public_key_bits < c.cert_key_size_lt)))
      ∷ ((c.cert_pubkey_alg_in ≡ [])
          ⊎ WithCert o.certificate (λ x. Elem x.public_key_algorithm c.cert_pubkey_alg_in))
      ∷ CertWanted c.cert_ca_without_keycertsign o.certificate ca_without_keycertsign
      ∷ ((c.cert_key_mismatch ≡ none) ⊎ (c.cert_key_mismatch ≡ some (cert_key_mismatch f o)))
      ∷ CertWanted c.cert_chain_broken o.certificate chain_broken
      ∷ []

  abbrev relation_requirements : List (Type 0)
  relation_requirements =
      ((c.duplicate_label ≡ none) ⊎ (c.duplicate_label ≡ some (is_duplicate_label f o)))
      ∷ ((c.orphan ≡ none) ⊎ (c.orphan ≡ some (is_orphan f o)))
      ∷ []

  -- Every field of the condition that is set is met.
  abbrev pub Meets : Type 0
  Meets = AllHold (
      key_requirements
      ++ (attr_requirements
          ++ (validity_requirements ++ (cert_requirements ++ relation_requirements))))

if_wanted-passes : (want : Option Bool) (s : String) → passes (if_wanted want s) ≡ true
if_wanted-passes none s = refl
if_wanted-passes (some true) s = refl
if_wanted-passes (some false) s = refl

module _ (fmt : Format) (now : Time) (limit : ℤ) (x : CertInfo) where
  expires_within_iff :
      (passes (expires_within fmt now limit x) ≡ true)
      ↔ ((pos 0 <ℤ sub x.not_after now) × (sub x.not_after now ≤ℤ days limit))
  unfolding expires_within
  expires_within_iff = ground arith

  remaining_pct_iff : (passes (remaining_pct fmt now limit x) ≡ true) ↔ (
      (pos 0 <ℤ lifetime x)
      × (pos 0 <ℤ sub x.not_after now)
      × (fmt.pct_at_least (sub x.not_after now) (lifetime x) limit ≡ false))
  unfolding remaining_pct
  remaining_pct_iff = ground arith

  validity_gt_iff : (passes (validity_gt fmt limit x) ≡ true) ↔ (days limit <ℤ lifetime x)
  unfolding validity_gt
  validity_gt_iff = ground arith

  validity_lt_iff :
      (passes (validity_lt fmt limit x) ≡ true)
      ↔ ((pos 0 <ℤ lifetime x) × (lifetime x <ℤ days limit))
  unfolding validity_lt
  validity_lt_iff = ground arith

module _ (fmt : Format) (c : Condition) (o : Object) (f : Facts) where
  key_checks-Decides : Decides (key_checks fmt c o f) (key_requirements fmt c o f)
  unfolding key_checks
  key_checks-Decides = (
    check_text_iff _ _,
    (check_text_iff _ _, (check_in_iff _ _ _, (check_in_iff _ _ _, (check_not_in_iff _ _, tt)))),
  )

  attr_checks-Decides : Decides (attr_checks fmt c o f) (attr_requirements fmt c o f)
  unfolding attr_checks
  attr_checks-Decides =
      let a = check_attr_iff in
      (
        a _ _ _,
        (
          a _ _ _,
          (
            a _ _ _,
            (
              a _ _ _,
              (
                a _ _ _,
                (
                  a _ _ _,
                  (
                    a _ _ _,
                    (
                      a _ _ _,
                      (a _ _ _, (a _ _ _, (a _ _ _, (a _ _ _, (check_key_size_iff _ _, tt))))),
                    ),
                  ),
                ),
              ),
            ),
          ),
        ),
      )

  validity_checks-Decides : Decides (validity_checks fmt c o f) (validity_requirements fmt c o f)
  unfolding validity_checks
  validity_checks-Decides = (
    check_cert_fact_iff _ _ _ _ (λ x. refl),
    (
      check_cert_limit_iff _ _ (expires_within_iff fmt f.now _) _ _,
      (
        check_cert_limit_iff _ _ (validity_gt_iff fmt f.now _) _ _,
        (
          check_cert_limit_iff _ _ (validity_lt_iff fmt f.now _) _ _,
          (check_cert_limit_iff _ _ (remaining_pct_iff fmt f.now _) _ _, tt),
        ),
      ),
    ),
  )

  cert_checks-Decides : Decides (cert_checks fmt c o f) (cert_requirements fmt c o f)
  unfolding cert_checks
  cert_checks-Decides =
      let w = if_wanted-passes in
      (
        check_cert_in_iff _ _ _ _,
        (
          check_cert_fact_iff _ _ _ _ (λ x. w c.cert_is_ca _),
          (
            check_cert_fact_iff _ _ _ _ (λ x. w c.cert_self_signed _),
            (
              check_cert_fact_iff _ _ _ _ (λ x. w c.cert_not_yet_valid _),
              (
                check_cert_key_size_iff _ _,
                (
                  check_cert_in_iff _ _ _ _,
                  (
                    check_cert_fact_iff _ _ _ _ (λ x. w c.cert_ca_without_keycertsign _),
                    (
                      check_fact_iff _ _ _ (w c.cert_key_mismatch _),
                      (check_cert_fact_iff _ _ _ _ (λ x. w c.cert_chain_broken _), tt),
                    ),
                  ),
                ),
              ),
            ),
          ),
        ),
      )

  relation_checks-Decides : Decides (relation_checks fmt c o f) (relation_requirements fmt c o f)
  unfolding relation_checks
  relation_checks-Decides = (check_fact_iff _ _ _ refl, (check_fact_iff _ _ _ refl, tt))

  object_checks_iff : (all passes (object_checks fmt c o f) ≡ true) ↔ Meets fmt c o f
  unfolding object_checks
  object_checks_iff = all-iff_AllHold _ _ (
      Decides-append _ _ _ _ key_checks-Decides (
        Decides-append _ _ _ _ attr_checks-Decides (
          Decides-append _ _ _ _ validity_checks-Decides
            (Decides-append _ _ _ _ cert_checks-Decides relation_checks-Decides))))

-- An object matches a rule exactly when it meets every field of the rule's condition that is set;
-- each field is stated on its own, over the object, its certificate and the shared facts.
pub match_object_iff :
    (fmt : Format) (r : Rule) (o : Object) (f : Facts)
    → ((match_object fmt r o f).0 ≡ true) ↔ Meets fmt r.match_on o f
unfolding match_object
match_object_iff fmt r o f =
    let cs = object_checks fmt r.match_on o f in
    let (to, from) = object_checks_iff fmt r.match_on o f in
    let same = run_checks-passes cs in (λ t. to (ground arith), λ m. let p = from m in ground arith)
