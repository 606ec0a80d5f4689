-- ===== src/Policy/Guard.antt =====
-- internal/policy/eval.go: the guards of `matchObject`. A guard that stops with `return false` is
-- `none`; one that goes on is the details that it appends.
pub mod Passing
use text.Mathlib.Text.{starts_with}
use hsm_doctor.Base.{
  ℕ, String, Bool, true, false, not, Option, none, some, List, [], ◌∷◌, ◌++◌, ◌&&◌, ◌||◌, ◌==◌, eqb,
  leb, if◌then◌else◌, eq_bool,
}
use hsm_doctor.Base.Int.{ℤ, pos, leb_ℤ, ltb_ℤ, to_uint}
use hsm_doctor.Base.Text.{◌+++◌, decimal, decimal_ℤ}
use hsm_doctor.Base.Clock.{Time, Duration, Format, sub, before, days}
use hsm_doctor.Inventory.{CertInfo, contains, has_key_usage}
use hsm_doctor.Policy.Condition.{is_empty, is_zero}

abbrev pub Check : Type 0
Check = Option (List String)

-- An unset condition asks nothing.
abbrev pub skip : Check
skip = some []

abbrev pub say : String → Check
say s = some (s ∷ [])

unfoldable pub check_text : String → String → Check
check_text want have = if want == "" || have == want then skip else none

unfoldable pub check_in : List String → String → String → Check
unfolding contains
check_in list have prefix =
    if is_empty list
    then skip
    else if have == "" || not (contains list have)
    then none
    else say (prefix +++ have)

unfoldable pub check_not_in : List String → String → Check
unfolding contains
check_not_in list have =
    if is_empty list
    then skip
    else if have == "" || contains list have
    then none
    else say ("curve " +++ have +++ " outside the allowed set")

abbrev bool_text : Bool → String
bool_text true = "true"
bool_text false = "false"

unfoldable pub check_attr : Option Bool → Option Bool → String → Check
check_attr none attr name = skip
check_attr (some want) none name = none
check_attr (some want) (some have) name =
    if eq_bool have want then say (name +++ "=" +++ bool_text have) else none

unfoldable pub check_key_size : ℕ → ℕ → Check
unfolding decimal
check_key_size limit bits =
    if eqb limit 0
    then skip
    else if eqb bits 0 || leb limit bits
    then none
    else say ("key size " +++ decimal bits +++ " < " +++ decimal limit +++ " bits")

-- What a guard does with the certificate, which may be missing.
unfoldable pub with_cert : Option CertInfo → (CertInfo → Check) → Check
with_cert none k = none
with_cert (some c) k = k c

-- A tri-state condition on a Boolean fact of the certificate.
unfoldable pub check_cert_fact :
    Option Bool → Option CertInfo → (CertInfo → Bool) → (CertInfo → Check) → Check
unfolding with_cert
check_cert_fact none cert fact detail = skip
check_cert_fact (some want) cert fact detail =
    with_cert cert (λ c. if eq_bool (fact c) want then detail c else none)

-- A limit that is set, `> 0`.
unfoldable pub check_cert_limit : ℤ → Option CertInfo → (CertInfo → Check) → Check
unfolding with_cert
check_cert_limit limit cert k = if ltb_ℤ (pos 0) limit then with_cert cert k else skip

unfoldable pub check_cert_in : List String → Option CertInfo → (CertInfo → String) → String → Check
unfolding with_cert contains
check_cert_in list cert value prefix =
    if is_empty list
    then skip
    else with_cert cert (λ c. if contains list (value c) then say (prefix +++ value c) else none)

-- A tri-state condition on a fact of the object.
unfoldable pub check_fact : Option Bool → Bool → Check → Check
check_fact none fact detail = skip
check_fact (some want) fact detail = if eq_bool fact want then detail else none

-- Details that are added where the condition asks for `true`.
abbrev pub if_wanted : Option Bool → String → Check
if_wanted (some true) s = say s
if_wanted _ s = skip

abbrev pub lifetime : CertInfo → Duration
lifetime c = sub c.not_after c.not_before

module _ (fmt : Format) (now : Time) (limit : ℤ) where
  unfoldable pub expires_within : CertInfo → Check
  unfolding sub days decimal_ℤ
  expires_within c =
      let left = sub c.not_after now in
      if leb_ℤ left (pos 0) || ltb_ℤ (days limit) left
      then none
      else say (
          "expires "
          +++ fmt.date c.not_after
          +++ " ("
          +++ decimal_ℤ (fmt.whole_days left)
          +++ " days left)")

  unfoldable pub remaining_pct : CertInfo → Check
  unfolding sub decimal_ℤ
  remaining_pct c =
      let left = sub c.not_after now in
      if leb_ℤ (lifetime c) (pos 0) || leb_ℤ left (pos 0)
      then none
      else if fmt.pct_at_least left (lifetime c) limit
      then none
      else say (
          fmt.pct_text left (lifetime c)
          +++ "% of lifetime remaining (< "
          +++ decimal_ℤ limit
          +++ "%)")

module _ (fmt : Format) (limit : ℤ) where
  unfoldable pub validity_gt : CertInfo → Check
  unfolding sub days decimal_ℤ
  validity_gt c =
      if leb_ℤ (lifetime c) (days limit)
      then none
      else say (
          "validity "
          +++ decimal_ℤ (fmt.whole_days (lifetime c))
          +++ " days > "
          +++ decimal_ℤ limit)

  unfoldable pub validity_lt : CertInfo → Check
  unfolding sub days decimal_ℤ
  validity_lt c =
      if leb_ℤ (lifetime c) (pos 0) || leb_ℤ (days limit) (lifetime c)
      then none
      else say (
          "short-lived: validity "
          +++ decimal_ℤ (fmt.whole_days (lifetime c))
          +++ " days < "
          +++ decimal_ℤ limit)

-- `uint(bits)` reads a negative size as a large one.
unfoldable pub check_cert_key_size : ℕ → Option CertInfo → Check
unfolding with_cert to_uint decimal decimal_ℤ
check_cert_key_size limit cert =
    if eqb limit 0
    then skip
    else with_cert cert (λ c.
      if is_zero c.public_key_bits || leb limit (to_uint c.public_key_bits)
      then none
      else say
          ("certificate key " +++ decimal_ℤ c.public_key_bits +++ " bits < " +++ decimal limit))

abbrev pub chain_broken : CertInfo → Bool
chain_broken c = starts_with c.chain_status "unverified"

abbrev pub ca_without_keycertsign : CertInfo → Bool
ca_without_keycertsign c = c.is_ca && not (has_key_usage c "keyCertSign")

-- The first guard that stops stops all.
unfoldable pub run_checks : List Check → Check
run_checks [] = some []
run_checks (none ∷ rest) = none
run_checks (some ds ∷ rest) = elim (run_checks rest) [ none ↦ none | some es ↦ some (ds ++ es) ]
