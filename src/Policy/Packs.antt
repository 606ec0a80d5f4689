-- ===== src/Policy/Packs.antt =====
-- internal/cli/packs.go and rules/embed.go: the rules that the flags --rules and --pack choose.
-- Reading a file, the embedded folder of packs and the YAML decoder are parameters.
pub mod Naming
pub mod Texts
pub mod Choosing
use Prim.Native.Char.{code}
use Prim.Native.String
use hsm_doctor.Base.{
  ℕ, ◌≡◌, refl, String, Bool, false, not, Option, none, some, List, [], ◌∷◌, ◌&&◌, ◌||◌, ◌==◌, eqb,
  if◌then◌else◌,
}
use hsm_doctor.Base.Text.{◌+++◌}
use hsm_doctor.Base.Text.Parts.{trim_right, split_on, cons}
use hsm_doctor.Base.Fallible.{Fallible, done, failed}
use hsm_doctor.Policy.Condition.{Config, is_empty}
use hsm_doctor.Policy.Load.{Error, Outcome, ok, err, merge, validate}

pub data Problem : Type 0 where
  exclusive : Problem
  unreadable : String → Problem
  not_yaml : String → Problem
  invalid : Error → Problem
  not_a_pack : String → Problem
  in_pack : String → Problem → Problem

pub data Attempt (A : Type 0) : Type 0 where
  resolved : A → Attempt A
  problem : Problem → Attempt A

infixl 5 ◌>>=◌
abbrev pub ◌>>=◌ : {A B : Type 0} → Attempt A → (A → Attempt B) → Attempt B
resolved a >>= k = k a
problem e >>= k = problem e

pub >>=-eq-resolved :
    {A B : Type 0} (m : Attempt A) (k : A → Attempt B) {b : B}
    → (m >>= k) ≡ resolved b
    → (a : A) × (m ≡ resolved a) × (k a ≡ resolved b)
>>=-eq-resolved (resolved a) k h = (a, refl, h)
>>=-eq-resolved (problem e) k h = cc

abbrev is_slash : ℕ → Bool
is_slash c = eqb c b'/'

abbrev last_of : String → List String → String
last_of s [] = s
last_of s (t ∷ rest) = last_of t rest

-- `filepath.Base`
unfoldable pub base : String → String
base path =
    let path' = trim_right is_slash path in
    if path == "" then "." else if path' == "" then "/" else last_of "" (split_on b'/' path')

unfoldable has_slash : String → Bool
has_slash String.[] = false
has_slash (String.◌∷◌ c s) = is_slash (code c) || has_slash s

-- `filepath.Ext`: from the last dot of the last element.
unfoldable pub ext : String → String
unfolding has_slash
ext String.[] = ""
ext (String.◌∷◌ c s) =
    let rest = ext s in
    if not (rest == "")
    then rest
    else if eqb (code c) b'.' && not (has_slash s)
    then cons c s
    else ""

-- `strings.TrimSuffix`
unfoldable pub trim_suffix : String → String → String
trim_suffix suffix String.[] = ""
trim_suffix suffix (String.◌∷◌ c s) =
    let rest = trim_suffix suffix s in if cons c s == suffix then "" else cons c rest

unfoldable pub source_name : Config → String → String
source_name cfg fallback =
    let file = trim_suffix (ext fallback) (base fallback) in
    elim cfg.pack [ none ↦ file | some p ↦ if p.name == "" then file else p.name ]

abbrev pub of_outcome : {A : Type 0} → Outcome A → Attempt A
of_outcome (ok a) = resolved a
of_outcome (err e) = problem (invalid e)

abbrev pub within : {A : Type 0} → String → Attempt A → Attempt A
within name (resolved a) = resolved a
within name (problem e) = problem (in_pack name e)

abbrev pub merge_loaded : List Config × List String → Attempt (Config × List String)
merge_loaded (configs, names) = of_outcome (merge configs) >>= λ merged. resolved (merged, names)

module _ (read_file : String → Option String) (embedded : String → Option String)
    (decode : String → Fallible Config) (default_rules : String) where
  -- `policy.Load`
  unfoldable pub load : String → Attempt Config
  load data_text = elim (decode data_text) [
    | failed e ↦ problem (not_yaml e)
    | done cfg ↦ of_outcome (validate cfg)
  ]

  -- `PackData`: the folder of packs is asked for a file.
  unfoldable pub pack_data : String → Option String
  pack_data name = if name == "default" then some default_rules else embedded (name +++ ".yaml")

  -- One turn of the loop.
  unfoldable pub load_pack : String → Attempt Config
  load_pack name = elim (pack_data name) [
    | some text ↦ within name (load text)
    | none ↦ elim (read_file name) [
      | none ↦ problem (not_a_pack name)
      | some text ↦ within name (load text)
    ]
  ]

  unfoldable pub load_packs : List String → Attempt (List Config × List String)
  load_packs [] = resolved ([], [])
  load_packs (name ∷ rest) = do
    cfg ← load_pack name
    (configs, names) ← load_packs rest
    resolved (cfg ∷ configs, source_name cfg name ∷ names)

  -- The rules, with `SourcePacks`.
  unfoldable pub resolve_rule_config : String → List String → Attempt (Config × List String)
  resolve_rule_config rules_path packs =
      if not (rules_path == "") && not (is_empty packs)
      then problem exclusive
      else if not (rules_path == "")
      then elim (read_file rules_path) [
        | none ↦ problem (unreadable rules_path)
        | some text ↦ load text >>= λ cfg. resolved (cfg, source_name cfg rules_path ∷ [])
      ]
      else if is_empty packs
      then (load default_rules >>= λ cfg. resolved (cfg, "default" ∷ []))
      else (load_packs packs >>= merge_loaded)
