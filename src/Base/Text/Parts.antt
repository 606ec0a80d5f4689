-- ===== src/Base/Text/Parts.antt =====
-- Go's `strings`: trimming, splitting and cutting by characters, and `strconv.Atoi`.
use Prim.Native.Nat.{ℕ, ◌+◌, ◌-◌, ◌*◌, ◌^◌}
use Prim.Native.Char.{Char, code}
use Prim.Native.String
use Prim.Native.String.{String}
use mathlib.Core.Bool.{Bool, ◌&&◌, ◌||◌}
use mathlib.Core.Option.{Option, none, some}
use mathlib.Core.List.{List, [], ◌∷◌}
use text.Mathlib.Text.{◌==◌}
use hsm_doctor.Base.Tests.{eqb, leb, ltb, if◌then◌else◌}

abbrev pub cons : Char → String → String
cons c s = String.◌∷◌ c s

unfoldable pub trim_left : (ℕ → Bool) → String → String
trim_left p String.[] = ""
trim_left p (String.◌∷◌ c s) = let rest = trim_left p s in if p (code c) then rest else cons c s

unfoldable pub trim_right : (ℕ → Bool) → String → String
trim_right p String.[] = ""
trim_right p (String.◌∷◌ c s) =
    let rest = trim_right p s in if rest == "" && p (code c) then "" else cons c rest

-- `strings.Trim` by a set of characters.
unfoldable pub trim : (ℕ → Bool) → String → String
unfolding trim_left trim_right
trim p s = trim_right p (trim_left p s)

-- The characters that `strings.TrimSpace` removes, `unicode.IsSpace`.
abbrev pub is_space : ℕ → Bool
is_space c =
    (leb 9 c && leb c 13)
    || eqb c 32
    || eqb c 133
    || eqb c 160
    || eqb c 5760
    || (leb 8192 c && leb c 8202)
    || eqb c 8232
    || eqb c 8233
    || eqb c 8239
    || eqb c 8287
    || eqb c 12288

unfoldable pub trim_space : String → String
unfolding trim
trim_space s = trim is_space s

-- From the first character that passes.
unfoldable pub drop_until : (ℕ → Bool) → String → String
drop_until p String.[] = ""
drop_until p (String.◌∷◌ c s) = let rest = drop_until p s in if p (code c) then cons c s else rest

-- The characters before the first that does not pass.
unfoldable pub take_while : (ℕ → Bool) → String → String
take_while p String.[] = ""
take_while p (String.◌∷◌ c s) = let rest = take_while p s in if p (code c) then cons c rest else ""

abbrev onto_first : Char → List String → List String
onto_first c [] = cons c "" ∷ []
onto_first c (s ∷ rest) = cons c s ∷ rest

-- `strings.Split` by one character.
unfoldable pub split_on : ℕ → String → List String
split_on sep String.[] = "" ∷ []
split_on sep (String.◌∷◌ c s) =
    let rest = split_on sep s in if eqb (code c) sep then "" ∷ rest else onto_first c rest

abbrev onto_left : Char → Option (String × String) → Option (String × String)
onto_left c none = none
onto_left c (some (s, t)) = some (cons c s, t)

-- `strings.Cut` by one character: the parts before and after the first.
unfoldable pub cut_at : ℕ → String → Option (String × String)
cut_at sep String.[] = none
cut_at sep (String.◌∷◌ c s) =
    let rest = cut_at sep s in if eqb (code c) sep then some ("", s) else onto_left c rest

-- `strings.CutPrefix`
unfoldable pub cut_prefix : String → String → Option String
cut_prefix s String.[] = some s
cut_prefix String.[] (String.◌∷◌ d p) = none
cut_prefix (String.◌∷◌ c s) (String.◌∷◌ d p) =
    let rest = cut_prefix s p in if eqb (code c) (code d) then rest else none

abbrev pub is_digit : ℕ → Bool
is_digit c = leb b'0' c && leb c b'9'

-- The value of decimal digits after some that have the value `n`.
unfoldable pub digits_value : ℕ → String → Option ℕ
digits_value n String.[] = some n
digits_value n (String.◌∷◌ c s) =
    let rest = digits_value (n * 10 + (code c - b'0')) s in if is_digit (code c) then rest else none

-- `strconv.ParseUint(s, 10, bits)`
unfoldable pub parse_uint : ℕ → String → Option ℕ
unfolding digits_value
parse_uint bits String.[] = none
parse_uint bits (String.◌∷◌ c s) = elim (digits_value 0 (cons c s)) [
  | none ↦ none
  | some n ↦ if ltb n (2 ^ bits) then some n else none
]

-- `len(s)`, the bytes of the text in UTF-8
unfoldable pub byte_length : String → ℕ
byte_length s = String.len s
