-- ===== src/Base/Text/Order.antt =====
-- The order of Go's strings is a strict total order.
use Prim.Native.Nat.{Ordering, compare as compare_ℕ}
use Prim.Native.Char.{Char, code}
use Prim.Native.String.compare
use Prim.Native.String.{String, [], ◌∷◌, compare, then}
use mathlib.Core.Path.{◌≡◌, refl}
use mathlib.Core.Bool.{true, false}
use native.Mathlib.Omega.{arith}
use hsm_doctor.Base.Sort.{IsOrder}
use hsm_doctor.Base.Text.{str_lt}

cons-cons :
    (c d : Char) (s t : String)
    → compare (c ∷ s) (d ∷ t) ≡ then (compare_ℕ (code c) (code d)) (compare s t)
cons-cons c d s t = λ i. compare.cons-cons c d s t i

nil-cons : (d : Char) (t : String) → compare [] (d ∷ t) ≡ Ordering.lt
nil-cons d t = λ i. compare.nil-cons d t i

cons-nil : (c : Char) (s : String) → compare (c ∷ s) [] ≡ Ordering.gt
cons-nil c s = λ i. compare.cons-nil c s i

asymm : (s t : String) → str_lt s t ≡ true → str_lt t s ≡ false
asymm [] [] h = refl
asymm [] (d ∷ t) h = ground (arith, cons-nil d t)
asymm (c ∷ s) [] h = ground (arith, cons-nil c s)
asymm (c ∷ s) (d ∷ t) h = ground (arith, cons-cons c d s t, cons-cons d c t s, asymm s t)

not_lt_trans : (a b c : String) → str_lt b a ≡ false → str_lt c b ≡ false → str_lt c a ≡ false
not_lt_trans [] [] c h k = k
not_lt_trans [] (y ∷ b) [] h k = refl
not_lt_trans [] (y ∷ b) (z ∷ c) h k = ground (arith, cons-nil z c)
not_lt_trans (x ∷ a) [] c h k = ground (arith, nil-cons x a)
not_lt_trans (x ∷ a) (y ∷ b) [] h k = ground (arith, nil-cons y b)
not_lt_trans (x ∷ a) (y ∷ b) (z ∷ c) h k =
    ground (arith, cons-cons y x b a, cons-cons z y c b, cons-cons z x c a, not_lt_trans a b c)

pub str_lt-IsOrder : IsOrder str_lt
str_lt-IsOrder = record { asymm = asymm; trans = not_lt_trans }
