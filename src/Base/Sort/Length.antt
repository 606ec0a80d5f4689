-- ===== src/Base/Sort/Length.antt =====
-- Sorting keeps the length.
use mathlib.Core.Path.{◌≡◌, refl, sym, ◌∙◌}
use mathlib.Core.Bool.{Bool}
use mathlib.Core.List.{List, [], ◌∷◌}
use native.Mathlib.Omega.{arith}
use hsm_doctor.Base.Lists.{length, total}
use hsm_doctor.Base.Sort.{sort_by, sort_by-total}

length-total : {A : Type 0} (l : List A) → total (λ x. 1) l ≡ length l
length-total [] = refl
length-total (x ∷ l) = omega (arith, length-total l)

pub length-sort_by :
    {A : Type 0} (less : A → A → Bool) (l : List A) → length (sort_by less l) ≡ length l
length-sort_by less l =
    sym (length-total (sort_by less l)) ∙ sort_by-total less (λ x. 1) l ∙ length-total l
