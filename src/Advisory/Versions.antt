-- ===== src/Advisory/Versions.antt =====
-- internal/advisory/advisory.go: the order of versions.
use hsm_doctor.Base.{
  ℕ, zero, suc, ◌<◌, ◌≡◌, refl, sym, ap, ◌∙◌, ◌↔◌, ◌⊎◌, inl, inr, String, false, some, List, [],
  ◌∷◌, arith,
}
use hsm_doctor.Base.Int.{ℤ, pos, negsuc, leb_ℤ}
use hsm_doctor.Advisory.{parse_version, sign_of, compare_parts, compare_versions}

abbrev pub first : List ℕ → ℕ
first [] = 0
first (x ∷ xs) = x

abbrev pub later : List ℕ → List ℕ
later [] = []
later (x ∷ xs) = xs

-- The number at a place; one that is missing is 0.
abbrev pub number : ℕ → List ℕ → ℕ
number zero xs = first xs
number (suc i) xs = number i (later xs)

-- The numbers before a place.
abbrev pub front : ℕ → List ℕ → List ℕ
front zero xs = []
front (suc i) xs = first xs ∷ front i (later xs)

-- At some place the left version has the lower number, and before it they agree.
abbrev pub Below : List ℕ → List ℕ → Type 0
Below xs ys = (i : ℕ) × (front i xs ≡ front i ys) × (number i xs < number i ys)

-- They agree at every place.
abbrev pub Agree : List ℕ → List ℕ → Type 0
Agree xs ys = (i : ℕ) → number i xs ≡ number i ys

Below-iff :
    (xs ys : List ℕ)
    → Below xs ys ↔ ((first xs < first ys) ⊎ (first xs ≡ first ys) × Below (later xs) (later ys))
Below-iff xs ys =
    (λ (i, p, q). to i p q, elim [ inl l ↦ (0, refl, l) | inr (e, (i, p, q)) ↦ (suc i, cc, q) ])
  where
    to :
        (i : ℕ)
        → front i xs ≡ front i ys
        → number i xs < number i ys
        → (first xs < first ys) ⊎ (first xs ≡ first ys) × Below (later xs) (later ys)
    to zero p q = inl q
    to (suc i) p q = inr (cc, (i, cc, q))

number-nil : (i : ℕ) → number i [] ≡ 0
number-nil zero = refl
number-nil (suc i) = number-nil i

nil_not-Below : ¬ Below [] []
nil_not-Below (i, p, q) = omega (arith, number-nil i)

-- The loop compares the first numbers, and then the rest.
compare_step :
    (xs ys : List ℕ)
    → compare_parts xs ys ≡ sign_of (first xs) (first ys) (compare_parts (later xs) (later ys))
unfolding compare_parts
compare_step [] [] = refl
compare_step [] (y ∷ ys) = refl
compare_step (x ∷ xs) [] = refl
compare_step (x ∷ xs) (y ∷ ys) = refl

nil_zero : compare_parts [] [] ≡ pos 0
unfolding compare_parts
nil_zero = refl

compare-Below : (xs ys : List ℕ) → (compare_parts xs ys ≡ negsuc 0) ↔ Below xs ys
compare-Below [] [] = (λ e. cc (e, nil_zero), λ b. absurd (nil_not-Below b))
compare-Below [] (y ∷ ys) =
    ground (arith, compare_step [] (y ∷ ys), Below-iff [] (y ∷ ys), compare-Below [] ys)
compare-Below (x ∷ xs) [] =
    ground (arith, compare_step (x ∷ xs) [], Below-iff (x ∷ xs) [], compare-Below xs [])
compare-Below (x ∷ xs) (y ∷ ys) =
    ground (arith, compare_step (x ∷ xs) (y ∷ ys), Below-iff (x ∷ xs) (y ∷ ys), compare-Below xs ys)

abbrev negated : ℤ → ℤ
negated (pos zero) = pos 0
negated (pos (suc n)) = negsuc n
negated (negsuc n) = pos (suc n)

-- Comparing in the other direction gives the opposite sign.
compare_swap : (xs ys : List ℕ) → compare_parts ys xs ≡ negated (compare_parts xs ys)
unfolding compare_parts
compare_swap [] [] = refl
compare_swap [] (y ∷ ys) = ground (arith, compare_swap [] ys)
compare_swap (x ∷ xs) [] = ground (arith, compare_swap xs [])
compare_swap (x ∷ xs) (y ∷ ys) = ground (arith, compare_swap xs ys)

compare_sign :
    (xs ys : List ℕ)
    → (compare_parts xs ys ≡ negsuc 0)
      ⊎ (compare_parts xs ys ≡ pos 0)
      ⊎ (compare_parts xs ys ≡ pos 1)
unfolding compare_parts
compare_sign [] [] = inr (inl refl)
compare_sign [] (y ∷ ys) = ground (arith, compare_sign [] ys)
compare_sign (x ∷ xs) [] = ground (arith, compare_sign xs [])
compare_sign (x ∷ xs) (y ∷ ys) = ground (arith, compare_sign xs ys)

negative_iff :
    (xs ys : List ℕ)
    → (leb_ℤ (pos 0) (compare_parts xs ys) ≡ false) ↔ (compare_parts xs ys ≡ negsuc 0)
negative_iff xs ys = ground (arith, compare_sign xs ys)

-- A comparison is negative exactly where the left version is below the right one.
pub leb-Below : (xs ys : List ℕ) → (leb_ℤ (pos 0) (compare_parts xs ys) ≡ false) ↔ Below xs ys
leb-Below xs ys =
    let (to, from) = compare-Below xs ys in
    let (to', from') = negative_iff xs ys in (λ e. to (to' e), λ h. from' (from h))

Agree-zero : (xs ys : List ℕ) (i : ℕ) → compare_parts xs ys ≡ pos 0 → number i xs ≡ number i ys
Agree-zero xs ys zero e = ground (arith, compare_step xs ys)
Agree-zero xs ys (suc i) e = Agree-zero (later xs) (later ys) i (ground (arith, compare_step xs ys))

zero-Agree : (xs ys : List ℕ) → Agree xs ys → compare_parts xs ys ≡ pos 0
unfolding compare_parts
zero-Agree [] [] h = refl
zero-Agree [] (y ∷ ys) h = ground (arith, h 0, zero-Agree [] ys (λ i. h (suc i)))
zero-Agree (x ∷ xs) [] h = ground (arith, h 0, zero-Agree xs [] (λ i. h (suc i)))
zero-Agree (x ∷ xs) (y ∷ ys) h = ground (arith, h 0, zero-Agree xs ys (λ i. h (suc i)))

-- Where both versions have a number, the comparison is negative exactly when at some place the left
-- one has the lower number and before it they agree, positive exactly when that holds of the right
-- one, and 0 exactly when they agree at every place; a number that is missing counts as 0.
pub compare_versions-order :
    (a b : String) {n : ℤ}
    → compare_versions a b ≡ some n
    → let v = parse_version a in
      let w = parse_version b in
      ((n ≡ negsuc 0) ↔ Below v w) × ((n ≡ pos 1) ↔ Below w v) × ((n ≡ pos 0) ↔ Agree v w)
unfolding compare_versions
compare_versions-order a b {n} e =
    let v = parse_version a in
    let w = parse_version b in
    let same : n ≡ compare_parts v w = ground arith in
    let (to, from) = compare-Below v w in
    let (to', from') = compare-Below w v in
    let swap = compare_swap w v in
    let swap' = compare_swap v w in
    (
      (λ p. to (cc), λ h. same ∙ from h),
      (λ p. to' (swap' ∙ ap negated (sym same ∙ p)), λ h. same ∙ swap ∙ ap negated (from' h)),
      (λ p. λ i. Agree-zero v w i (cc), λ h. same ∙ zero-Agree v w h),
    )
