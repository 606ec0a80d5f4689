-- ===== src/Notify/Thresholds.antt =====
-- internal/notify/notifier.go: which threshold a certificate has crossed.
use mathlib.Core.Path.{subst}
use hsm_doctor.Base.{
  ◌≡◌, refl, ◌⊎◌, inl, inr, Bool, false, Option, none, some, List, [], ◌∷◌, arith, All, Elem,
  Elem-All, Bool-cases,
}
use hsm_doctor.Base.Int.{ℤ, pos, ◌≤ℤ◌, ◌<ℤ◌, ltb_ℤ, leb_ℤ}
use hsm_doctor.Base.Sort.{IsSorted, IsOrder, sort_by-IsSorted, sort_by-Any_iff}
use hsm_doctor.Notify.Expiry.{descending, last, bucket_from, crossed_threshold}

abbrev pub above : ℤ → ℤ → Bool
above a b = ltb_ℤ b a

pub above-IsOrder : IsOrder above
above-IsOrder = record { asymm = λ a b h. ground arith; trans = λ a b c h k. ground arith }

-- No threshold is at or above the days left.
abbrev pub Outside : ℤ → List ℤ → Type 0
Outside days ws = (ws ≡ []) ⊎ (pos 0 ≤ℤ days) × All (λ w. w <ℤ days) ws

-- The lowest threshold, or the lowest that is at or above the days left.
abbrev pub Lowest : ℤ → List ℤ → ℤ → Type 0
Lowest days ws b =
    Elem b ws
    × ((days <ℤ pos 0) × All (λ w. b ≤ℤ w) ws
        ⊎ (pos 0 ≤ℤ days) × (days ≤ℤ b) × All (λ w. (w <ℤ days) ⊎ (b ≤ℤ w)) ws)

last-lowest :
    (th : ℤ) (rest : List ℤ)
    → IsSorted above (th ∷ rest)
    → Elem (last th rest) (th ∷ rest) × All (λ w. last th rest ≤ℤ w) (th ∷ rest)
unfolding last
last-lowest th [] s = (inl refl, (omega arith, tt))
last-lowest th (t ∷ rest) (h, s) =
    let (m, l) = last-lowest t rest s in (inr m, (ground (arith, l.0, h.0), l))

-- The loop on a sorted list, with what it has found before.
Finds : ℤ → Option ℤ → List ℤ → Option ℤ → Type 0
Finds days found ts r =
    (r ≡ found) × All (λ w. w <ℤ days) ts
    ⊎ (b : ℤ) × (r ≡ some b) × Elem b ts × (days ≤ℤ b) × All (λ w. (w <ℤ days) ⊎ (b ≤ℤ w)) ts

lower : (b days : ℤ) (ts : List ℤ) → All (λ w. w <ℤ days) ts → All (λ w. (w <ℤ days) ⊎ (b ≤ℤ w)) ts
lower b days [] h = tt
lower b days (t ∷ ts) (p, h) = (inl p, lower b days ts h)

bucket_from-Finds :
    (days : ℤ) (found : Option ℤ) (ts : List ℤ)
    → IsSorted above ts
    → Finds days found ts (bucket_from days found ts)
unfolding Finds bucket_from
bucket_from-Finds days found [] s = inl (refl, tt)
bucket_from-Finds days found (th ∷ rest) (h, s) = elim (Bool-cases (leb_ℤ days th)) [
  | inl e ↦
      let at_least : days ≤ℤ th = ground arith in
      rw e (elim (bucket_from-Finds days (some th) rest s) [
        | inl (q, low) ↦
            inr (th, q, inl refl, at_least, (inr (omega arith), lower th days rest low))
        | inr (b, q, m, l, a) ↦
            let under : above b th ≡ false = Elem-All (λ y. above y th ≡ false) b rest h m in
            inr (b, q, inr m, l, (inr (ground arith), a))
      ])
  | inr e ↦
      let under : th <ℤ days = ground arith in
      rw e (elim (bucket_from-Finds days found rest s) [
        | inl (q, low) ↦ inl (q, (under, low))
        | inr (b, q, m, l, a) ↦ inr (b, q, inr m, l, (inl under, a))
      ])
]

crossed-sorted :
    (days : ℤ) (ts : List ℤ)
    → IsSorted above ts
    → (crossed_threshold days ts ≡ none) × Outside days ts
      ⊎ (b : ℤ) × (crossed_threshold days ts ≡ some b) × Lowest days ts b
unfolding crossed_threshold Finds
crossed-sorted days [] s = inl (refl, inl refl)
crossed-sorted days (th ∷ rest) s = elim (Bool-cases (ltb_ℤ days (pos 0))) [
  | inl e ↦
      let (m, l) = last-lowest th rest s in inr (last th rest, rw e, (m, inl (ground arith, l)))
  | inr e ↦
      let soon : pos 0 ≤ℤ days = ground arith in
      elim (bucket_from-Finds days none (th ∷ rest) s) [
        | inl (q, low) ↦ inl (rw e q, inr (soon, low))
        | inr (b, q, m, l, a) ↦ inr (b, rw e q, (m, inr (soon, l, a)))
      ]
]

All-Elem : (P : ℤ → Type 0) (xs : List ℤ) → ((a : ℤ) → Elem a xs → P a) → All P xs
All-Elem P [] f = tt
All-Elem P (x ∷ xs) f = (f x (inl refl), All-Elem P xs (λ a m. f a (inr m)))

-- What holds of all thresholds holds of them in any order.
All-descending : (P : ℤ → Type 0) (ws : List ℤ) → All P (descending ws) → All P ws
unfolding descending
All-descending P ws h =
    All-Elem P ws
      (λ a m. Elem-All P a (descending ws) h ((sort_by-Any_iff above (λ x. a ≡ x) ws).1 m))

descending-nil : (ws : List ℤ) → descending ws ≡ [] → ws ≡ []
unfolding descending
descending-nil [] e = refl
descending-nil (w ∷ ws) e =
    absurd (subst (Elem w) e ((sort_by-Any_iff above (λ x. w ≡ x) (w ∷ ws)).1 (inl refl)))

-- A certificate crosses no threshold exactly when there is none or all are below the days that are
-- left; otherwise it is put under the lowest threshold that is not below them or, once it has
-- expired, under the lowest of all, in whatever order the thresholds are configured.
pub crossed-descending :
    (days : ℤ) (ws : List ℤ)
    → (crossed_threshold days (descending ws) ≡ none) × Outside days ws
      ⊎ (b : ℤ) × (crossed_threshold days (descending ws) ≡ some b) × Lowest days ws b
unfolding descending
crossed-descending days ws =
    elim (crossed-sorted days (descending ws) (sort_by-IsSorted above-IsOrder ws)) [
      | inl (e, o) ↦ inl (
        e,
        elim o [
          | inl n ↦ inl (descending-nil ws n)
          | inr (p, h) ↦ inr (p, All-descending (λ w. w <ℤ days) ws h)
        ],
      )
      | inr (b, e, (m, l)) ↦ inr (
        b,
        e,
        (
          (sort_by-Any_iff above (λ x. b ≡ x) ws).0 m,
          elim l [
            | inl (p, h) ↦ inl (p, All-descending (λ w. b ≤ℤ w) ws h)
            | inr (p, q, h) ↦ inr (p, q, All-descending (λ w. (w <ℤ days) ⊎ (b ≤ℤ w)) ws h)
          ],
        ),
      )
    ]
