-- ===== src/Base/Casing.antt =====
-- What the program uses of Go's Unicode case tables, which the standard library generates.
use Prim.Native.String.{String}
use mathlib.Core.Bool.{Bool, true, false}
use mathlib.Core.Option.{none, some}
use text.Mathlib.Text.{find?}

pub record Casing : Type 0 where
  -- `strings.ToUpper` and `strings.ToLower`
  pub upper : String → String
  pub lower : String → String
  -- `strings.EqualFold`
  pub equal_fold : String → String → Bool

-- `strings.Contains`
unfoldable pub has_text : String → String → Bool
has_text s t = elim (find? s t) [ none ↦ false | some i ↦ true ]
