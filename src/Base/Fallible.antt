-- ===== src/Base/Fallible.antt =====
-- Go's pair of a value and an error, of which one is nil. The error is its text.
use Prim.Native.String.{String}
use mathlib.Core.Path.{◌≡◌}
use mathlib.Core.Path.{refl}
use mathlib.Core.Logic.{◌⊎◌, inl, inr}

pub data Fallible (A : Type 0) : Type 0 where
  done : A → Fallible A
  failed : String → Fallible A

infixl 5 ◌>>=◌
abbrev pub ◌>>=◌ : {A B : Type 0} → Fallible A → (A → Fallible B) → Fallible B
done a >>= k = k a
failed e >>= k = failed e

pub >>=-eq-done :
    {A B : Type 0} (m : Fallible A) (k : A → Fallible B) {b : B}
    → (m >>= k) ≡ done b
    → (a : A) × (m ≡ done a) × (k a ≡ done b)
>>=-eq-done (done a) k h = (a, refl, h)
>>=-eq-done (failed e) k h = cc

pub Fallible-cases :
    {A : Type 0} (m : Fallible A) → ((a : A) × (m ≡ done a)) ⊎ ((e : String) × (m ≡ failed e))
Fallible-cases (done a) = inl (a, refl)
Fallible-cases (failed e) = inr (e, refl)
