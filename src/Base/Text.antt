-- ===== src/Base/Text.antt =====
-- Texts: joining, the order of Go's strings, and decimal numbers.
pub mod Order
pub mod Parts
use Prim.Native.Nat.{ℕ, zero, suc, ◌/◌, ◌%◌, Ordering}
use Prim.Native.String
use Prim.Native.String.{String, compare}
use mathlib.Core.Bool.{Bool, true, false}
use mathlib.Core.List.{List, [], ◌∷◌}
use hsm_doctor.Base.Tests.{eqb, if◌then◌else◌}
use hsm_doctor.Base.Lists.{get_or}
use hsm_doctor.Base.Int.{ℤ, pos, negsuc}

infixr 65 ◌+++◌
abbrev pub ◌+++◌ : String → String → String
s +++ t = String.◌++◌ s t

-- `strings.Join`
unfoldable pub join : String → List String → String
join sep [] = ""
join sep (s ∷ []) = s
join sep (s ∷ rest) = s +++ sep +++ join sep rest

-- The order of `sort.Strings`: by bytes, which is by code points.
abbrev pub str_lt : String → String → Bool
str_lt s t = elim (compare s t) [ Ordering.lt ↦ true | _ ↦ false ]

abbrev digit_texts : List String
digit_texts = "0" ∷ "1" ∷ "2" ∷ "3" ∷ "4" ∷ "5" ∷ "6" ∷ "7" ∷ "8" ∷ "9" ∷ []

abbrev pub digit_text : ℕ → String
digit_text d = get_or digit_texts d ""

-- `%d` of a number that is not negative; `suc n` rounds are enough for `n`.
unfoldable pub decimal_from : ℕ → ℕ → String → String
decimal_from zero n acc = acc
decimal_from (suc f) n acc =
    let acc' = digit_text (n % 10) +++ acc in
    let rest = decimal_from f (n / 10) acc' in if eqb (n / 10) 0 then acc' else rest

unfoldable pub decimal : ℕ → String
unfolding decimal_from
decimal n = decimal_from (suc n) n ""

unfoldable pub decimal_ℤ : ℤ → String
decimal_ℤ (pos n) = decimal n
decimal_ℤ (negsuc n) = "-" +++ decimal (suc n)
