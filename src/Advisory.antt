-- ===== src/Advisory.antt =====
-- internal/advisory/advisory.go: known vulnerabilities, matched by the versions of a token's
-- firmware and of a PKCS#11 library. The YAML decoder before the validation is a library.
pub mod Versions
pub mod Loading
pub mod Matching
use hsm_doctor.Base.{
  ℕ, zero, suc, String, Bool, true, false, not, Option, none, some, List, [], ◌∷◌, ◌++◌, ◌&&◌, ◌||◌,
  ◌==◌, eqb, ltb, length, if◌then◌else◌,
}
use hsm_doctor.Base.Int.{ℤ, pos, negsuc, ltb_ℤ, leb_ℤ}
use hsm_doctor.Base.Text.{◌+++◌}
use hsm_doctor.Base.Text.Parts.{
  trim, trim_space, drop_until, take_while, split_on, is_digit, parse_uint,
}
use hsm_doctor.Base.Casing.{Casing, has_text}
use hsm_doctor.Base.Loading.{Loader, first_error}
use hsm_doctor.Inventory.{ModuleInfo, TokenInfo}
use hsm_doctor.Policy.Severity.{Severity, valid}
use hsm_doctor.Policy.Evaluate.{Finding}

pub record Match : Type 0 where
  pub component : String
  pub manufacturer : String
  pub model : String
  pub introduced_in : String
  pub fixed_in : String

pub record Advisory : Type 0 where
  pub id : String
  pub title : String
  pub severity : Severity
  pub description : String
  pub remediation : String
  pub reference : String
  pub match_on : Match

pub record Feed : Type 0 where
  pub data_version : String
  pub advisories : List Advisory

pub data Error : Type 0 where
  -- the number of the advisory, from 1
  no_id : ℕ → Error
  duplicate_id : String → Error
  no_title : String → Error
  invalid_severity : String → Severity → Error
  invalid_component : String → Error
  no_fixed_in : String → Error

-- The tests on an advisory after those of its id.
unfoldable pub fault : Advisory → Option Error
fault a =
    if a.title == ""
    then some (no_title a.id)
    else if not (valid a.severity)
    then some (invalid_severity a.id a.severity)
    else if not (a.match_on.component == "firmware") && not (a.match_on.component == "library")
    then some (invalid_component a.id)
    else if a.match_on.fixed_in == ""
    then some (no_fixed_in a.id)
    else none

unfoldable pub loader : Loader Advisory Error
unfolding fault
loader = record { key = λ a. a.id; no_id = no_id; duplicate = duplicate_id; fault = fault }

-- The error of `Load` for a decoded feed, if there is one.
unfoldable pub load_error : Feed → Option Error
unfolding loader
load_error f = first_error loader 0 [] f.advisories

unfoldable pub contains_fold : Casing → String → String → Bool
contains_fold c haystack needle = has_text (c.lower haystack) (c.lower needle)

abbrev pub in_version : ℕ → Bool
in_version c = eqb c b'.' || is_digit c

abbrev pub is_dot : ℕ → Bool
is_dot c = eqb c b'.'

-- The loop over the parts: an empty one is skipped, and one that is no 63-bit number ends it.
unfoldable pub parse_parts : List String → List ℕ
parse_parts [] = []
parse_parts (p ∷ rest) =
    let more = parse_parts rest in
    if p == "" then more else elim (parse_uint 63 p) [ none ↦ [] | some n ↦ n ∷ more ]

-- The numbers between dots, from the first digit of the text up to what is no digit or dot.
unfoldable pub parse_version : String → List ℕ
unfolding drop_until take_while split_on trim parse_parts
parse_version s =
    let tail = drop_until is_digit s in
    if tail == ""
    then []
    else parse_parts (split_on b'.' (trim is_dot (take_while in_version tail)))

-- The sign of the first two numbers that differ; a number that is missing reads as 0.
abbrev pub sign_of : ℕ → ℕ → ℤ → ℤ
sign_of x y rest = if ltb x y then negsuc 0 else if ltb y x then pos 1 else rest

unfoldable pub compare_parts : List ℕ → List ℕ → ℤ
compare_parts [] [] = pos 0
compare_parts [] (y ∷ ys) = let rest = compare_parts [] ys in sign_of 0 y rest
compare_parts (x ∷ xs) [] = let rest = compare_parts xs [] in sign_of x 0 rest
compare_parts (x ∷ xs) (y ∷ ys) = let rest = compare_parts xs ys in sign_of x y rest

-- `none` where one of the versions has no number.
unfoldable pub compare_versions : String → String → Option ℤ
compare_versions a b =
    let va = parse_version a in
    let vb = parse_version b in
    if eqb (length va) 0 || eqb (length vb) 0 then none else some (compare_parts va vb)

-- The version, the manufacturer and the model that an advisory is compared with.
unfoldable pub subject : ModuleInfo → Option TokenInfo → String → Option (String × String × String)
subject mod_info token component =
    if component == "firmware"
    then elim token [ none ↦ none | some t ↦ some (t.firmware_version, t.manufacturer, t.model) ]
    else if component == "library"
    then some (mod_info.library_version, mod_info.manufacturer, mod_info.description)
    else none

-- A version at or above the first that is fixed, or one that cannot be compared.
unfoldable pub is_fixed : String → String → Bool
is_fixed version fixed_in = elim (compare_versions version fixed_in) [
  | none ↦ true
  | some cmp ↦ leb_ℤ (pos 0) cmp
]

-- A version below the first that is affected, or one that cannot be compared.
unfoldable pub is_older : String → String → Bool
is_older version introduced_in = elim (compare_versions version introduced_in) [
  | none ↦ true
  | some cmp ↦ ltb_ℤ cmp (pos 0)
]

unfoldable pub finding_of : Advisory → String × String × String → Finding
finding_of a (version, manufacturer, model) = record {
  rule_id = a.id;
  title = a.title;
  severity = a.severity;
  object =
      trim_space (a.match_on.component +++ " " +++ manufacturer +++ " " +++ model)
      +++ " "
      +++ version;
  detail = "version " +++ version +++ " is affected; fixed in " +++ a.match_on.fixed_in;
  remediation = a.remediation;
  reference = a.reference;
}

-- The body of the loop of `Evaluate` once the subject is known.
unfoldable pub affected : Casing → Match → String × String × String → Bool
affected c m (version, manufacturer, model) =
    if not (m.manufacturer == "") && not (contains_fold c manufacturer m.manufacturer)
    then false
    else if not (m.model == "") && not (contains_fold c model m.model)
    then false
    else if is_fixed version m.fixed_in
    then false
    else if not (m.introduced_in == "") && is_older version m.introduced_in
    then false
    else true

unfoldable pub advisory_finding :
    Casing → Advisory → Option (String × String × String) → List Finding
advisory_finding c a none = []
advisory_finding c a (some s) = if affected c a.match_on s then finding_of a s ∷ [] else []

unfoldable pub evaluate : Casing → ModuleInfo → Option TokenInfo → List Advisory → List Finding
evaluate c mod_info token [] = []
evaluate c mod_info token (a ∷ rest) =
    advisory_finding c a (subject mod_info token a.match_on.component)
    ++ evaluate c mod_info token rest
