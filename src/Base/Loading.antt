-- ===== src/Base/Loading.antt =====
-- The validation loop of internal/kmip/rules.go and internal/advisory/advisory.go, which is one
-- loop over entries with an id: the first fault ends it.
use Prim.Native.Nat.{ℕ, ◌+◌}
use Prim.Native.String.{String}
use mathlib.Core.Path.{◌≡◌, refl}
use mathlib.Core.Logic.{◌≢◌, ◌↔◌}
use mathlib.Core.Bool.{Bool, true, false}
use mathlib.Core.Option.{Option, none, some}
use mathlib.Core.List.{List, [], ◌∷◌}
use native.Mathlib.Omega.{arith}
use text.Mathlib.Text.{◌==◌}
use text.Mathlib.TextEquality.{eq_iff}
use hsm_doctor.Base.Tests.{if◌then◌else◌}
use hsm_doctor.Base.Lists.{All}
use hsm_doctor.Base.Dict.{Dict, lookup, insert, or_zero, string_eq, lookup-insert}

-- The errors of one loader, and the tests that it makes after those of the id.
pub record Loader (A E : Type 0) : Type 0 where
  pub key : A → String
  -- the number of the entry, from 1
  pub no_id : ℕ → E
  pub duplicate : String → E
  pub fault : A → Option E

module _ {A E : Type 0} (l : Loader A E) where
  -- The first error, with the ids seen so far.
  unfoldable pub first_error : ℕ → Dict String Bool → List A → Option E
  first_error i seen [] = none
  first_error i seen (a ∷ rest) =
      let later = first_error (i + 1) (insert (l.key a) true seen) rest in
      if l.key a == ""
      then some (l.no_id (i + 1))
      else if or_zero false (lookup (l.key a) seen)
      then some (l.duplicate (l.key a))
      else elim (l.fault a) [ some e ↦ some e | none ↦ later ]

  abbrev pub IsDistinct : List A → Type 0
  IsDistinct [] = Unit
  IsDistinct (a ∷ rest) = All (λ b. l.key b ≢ l.key a) rest × IsDistinct rest

  abbrev pub IsSound : A → Type 0
  IsSound a = (l.key a ≢ "") × (l.fault a ≡ none)

  abbrev Unseen : Dict String Bool → A → Type 0
  Unseen seen a = or_zero false (lookup (l.key a) seen) ≡ false

  Unseen-insert_iff :
      (seen : Dict String Bool) (k : String) (es : List A)
      → All (Unseen (insert k true seen)) es ↔ (All (λ b. l.key b ≢ k) es × All (Unseen seen) es)
  Unseen-insert_iff seen k [] = (λ h. (tt, tt), λ h. tt)
  Unseen-insert_iff seen k (a ∷ es) =
      ground (
        arith,
        Unseen-insert_iff seen k es,
        lookup-insert k (l.key a) true seen,
        eq_iff k (l.key a),
      )

  first_error_iff :
      (i : ℕ) (seen : Dict String Bool) (es : List A)
      → (first_error i seen es ≡ none) ↔ (All IsSound es × All (Unseen seen) es × IsDistinct es)
  unfolding first_error
  first_error_iff i seen [] = (λ h. (tt, tt, tt), λ h. refl)
  first_error_iff i seen (a ∷ es) = ground (
    arith,
    first_error_iff (i + 1) (insert (l.key a) true seen) es,
    Unseen-insert_iff seen (l.key a) es,
    eq_iff (l.key a) "",
  )

  empty_Unseen : (es : List A) → All (Unseen []) es
  unfolding lookup
  empty_Unseen [] = tt
  empty_Unseen (a ∷ es) = (refl, empty_Unseen es)

  -- No error exactly when each entry has an id and no fault, and no two share an id.
  pub first_error-none_iff :
      (es : List A) → (first_error 0 [] es ≡ none) ↔ (All IsSound es × IsDistinct es)
  first_error-none_iff es = ground (arith, first_error_iff 0 [] es, empty_Unseen es)
