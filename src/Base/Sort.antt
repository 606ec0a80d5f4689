-- ===== src/Base/Sort.antt =====
-- Stable sorting by a strict test, as Go's `sort.SliceStable` promises it: the result is ordered,
-- holds the same elements, and keeps the order of those that compare equal.
pub mod Insertion
pub mod Length
use Prim.Native.Nat.{ℕ, ◌+◌}
use mathlib.Core.Path.{◌≡◌, refl, sym, ap, ◌∙◌}
use mathlib.Core.Logic.{◌↔◌, ◌⊎◌, inl, inr}
use mathlib.Core.Bool.{Bool, true, false}
use mathlib.Core.List.{List, [], ◌∷◌, ◌++◌, map, Perm}
use mathlib.Core.List.Perm
use native.Mathlib.Omega.{arith}
use hsm_doctor.Base.Tests.{ltb, if◌then◌else◌, Bool-cases}
use hsm_doctor.Base.Lists.{All, Any, keep, total}

module _ {ℓ} {A : Type ℓ} (less : A → A → Bool) where
  -- Before the first element that is not less.
  unfoldable pub insert_by : A → List A → List A
  insert_by x [] = x ∷ []
  insert_by x (y ∷ ys) = if less y x then y ∷ insert_by x ys else x ∷ y ∷ ys

  unfoldable pub sort_by : List A → List A
  unfolding insert_by
  sort_by [] = []
  sort_by (x ∷ xs) = insert_by x (sort_by xs)

  -- No later element is less than an earlier one.
  abbrev pub IsSorted : List A → Type 0
  IsSorted [] = Unit
  IsSorted (x ∷ xs) = All (λ y. less y x ≡ false) xs × IsSorted xs

-- The test is a strict weak order: "not less" is transitive and `less` is not symmetric.
pub record IsOrder {ℓ} {A : Type ℓ} (less : A → A → Bool) : Type ℓ where
  pub asymm : (a b : A) → less a b ≡ true → less b a ≡ false
  pub trans : (a b c : A) → less b a ≡ false → less c b ≡ false → less c a ≡ false

module _ {ℓ} {A : Type ℓ} (less : A → A → Bool) where
  insert_by-perm : (x : A) (ys : List A) → Perm (insert_by less x ys) (x ∷ ys)
  unfolding insert_by
  insert_by-perm x [] = Perm.refl (x ∷ [])
  insert_by-perm x (y ∷ ys) = elim (Bool-cases (less y x)) [
    | inl e ↦ rw e (Perm.trans (Perm.cons y (insert_by-perm x ys)) (Perm.swap x y ys))
    | inr e ↦ rw e (Perm.refl (x ∷ y ∷ ys))
  ]

  pub sort_by-perm : (xs : List A) → Perm (sort_by less xs) xs
  unfolding sort_by
  sort_by-perm [] = Perm.refl []
  sort_by-perm (x ∷ xs) =
      Perm.trans (insert_by-perm x (sort_by less xs)) (Perm.cons x (sort_by-perm xs))

  insert_by-total :
      (f : A → ℕ) (x : A) (ys : List A) → total f (insert_by less x ys) ≡ f x + total f ys
  unfolding insert_by
  insert_by-total f x [] = refl
  insert_by-total f x (y ∷ ys) = ground (arith, insert_by-total f x ys)

  pub sort_by-total : (f : A → ℕ) (xs : List A) → total f (sort_by less xs) ≡ total f xs
  unfolding sort_by
  sort_by-total f [] = refl
  sort_by-total f (x ∷ xs) =
      omega (arith, insert_by-total f x (sort_by less xs), sort_by-total f xs)

  module _ (P : A → Type 0) where
    insert_by-All : (x : A) (ys : List A) → P x → All P ys → All P (insert_by less x ys)
    unfolding insert_by
    insert_by-All x [] p h = (p, tt)
    insert_by-All x (y ∷ ys) p (q, h) = elim (Bool-cases (less y x)) [
      | inl e ↦ rw e (q, insert_by-All x ys p h)
      | inr e ↦ rw e (p, (q, h))
    ]

    pub sort_by-All : (xs : List A) → All P xs → All P (sort_by less xs)
    unfolding sort_by
    sort_by-All [] h = tt
    sort_by-All (x ∷ xs) (p, h) = insert_by-All x (sort_by less xs) p (sort_by-All xs h)

    insert_by-Any_iff : (x : A) (ys : List A) → Any P (insert_by less x ys) ↔ (P x ⊎ Any P ys)
    unfolding insert_by
    insert_by-Any_iff x [] = (λ h. h, λ h. h)
    insert_by-Any_iff x (y ∷ ys) = elim (Bool-cases (less y x)) [
      | inl e ↦ rw e (swapped (insert_by-Any_iff x ys))
      | inr e ↦ rw e (λ h. h, λ h. h)
    ]
      where
        swapped : {B : Type 0} → B ↔ (P x ⊎ Any P ys) → (P y ⊎ B) ↔ (P x ⊎ (P y ⊎ Any P ys))
        swapped e = (
          elim [
            | inl q ↦ inr (inl q)
            | inr b ↦ elim (e.0 b) [ inl p ↦ inl p | inr a ↦ inr (inr a) ]
          ],
          elim [
            | inl p ↦ inr (e.1 (inl p))
            | inr c ↦ elim c [ inl q ↦ inl q | inr a ↦ inr (e.1 (inr a)) ]
          ],
        )

    pub sort_by-Any_iff : (xs : List A) → Any P (sort_by less xs) ↔ Any P xs
    unfolding sort_by
    sort_by-Any_iff [] = (λ h. h, λ h. h)
    sort_by-Any_iff (x ∷ xs) =
        let (to, from) = insert_by-Any_iff x (sort_by less xs) in
        let (to', from') = sort_by-Any_iff xs in
        (
          λ h. elim (to h) [ inl p ↦ inl p | inr a ↦ inr (to' a) ],
          elim [ inl p ↦ from (inl p) | inr a ↦ from (inr (from' a)) ],
        )

module _ {ℓ} {A : Type ℓ} {less : A → A → Bool} (o : IsOrder less) where
  below-All :
      (x y : A) (ys : List A)
      → less y x ≡ false
      → All (λ z. less z y ≡ false) ys
      → All (λ z. less z x ≡ false) ys
  below-All x y [] e h = tt
  below-All x y (z ∷ ys) e (f, h) = (o.trans x y z e f, below-All x y ys e h)

  insert_by-IsSorted :
      (x : A) (ys : List A) → IsSorted less ys → IsSorted less (insert_by less x ys)
  unfolding insert_by
  insert_by-IsSorted x [] s = (tt, tt)
  insert_by-IsSorted x (y ∷ ys) (h, s) = elim (Bool-cases (less y x)) [
    | inl e ↦ rw e (
      insert_by-All less (λ z. less z y ≡ false) x ys (o.asymm y x e) h,
      insert_by-IsSorted x ys s,
    )
    | inr e ↦ rw e ((e, below-All x y ys e h), (h, s))
  ]

  pub sort_by-IsSorted : (xs : List A) → IsSorted less (sort_by less xs)
  unfolding sort_by
  sort_by-IsSorted [] = tt
  sort_by-IsSorted (x ∷ xs) = insert_by-IsSorted x (sort_by less xs) (sort_by-IsSorted xs)

  -- A class of elements none of which is less than another keeps its order.
  module _ (p : A → Bool) (level : (a b : A) → p a ≡ true → p b ≡ true → less a b ≡ false) where
    insert_by-keep :
        (x : A) (ys : List A)
        → keep p (insert_by less x ys) ≡ (if p x then x ∷ keep p ys else keep p ys)
    unfolding insert_by
    insert_by-keep x [] = refl
    insert_by-keep x (y ∷ ys) = ground (arith, level y x, insert_by-keep x ys)

    pub sort_by-keep : (xs : List A) → keep p (sort_by less xs) ≡ keep p xs
    unfolding sort_by
    sort_by-keep [] = refl
    sort_by-keep (x ∷ xs) = ground (arith, insert_by-keep x (sort_by less xs), sort_by-keep xs)

module _ {ℓ} {A : Type ℓ} {less : A → A → Bool} (o : IsOrder less) where
  pub insert_by-insert_by :
      (x y : A) (zs : List A)
      → less y x ≡ true
      → insert_by less x (insert_by less y zs) ≡ insert_by less y (insert_by less x zs)
  unfolding insert_by
  insert_by-insert_by x y [] h = ground (arith, o.asymm y x h)
  insert_by-insert_by x y (z ∷ zs) h = ground (
    arith,
    insert_by-insert_by x y zs h,
    o.asymm y x h,
    o.trans x y z,
    o.trans x z y,
    o.trans y z x,
    o.trans y x z,
    o.asymm z x,
    o.asymm z y,
  )

  insert_all : List A → List A → List A
  insert_all [] zs = zs
  insert_all (x ∷ xs) zs = insert_by less x (insert_all xs zs)

  sort_by-append_lem : (xs zs : List A) → sort_by less (xs ++ zs) ≡ insert_all xs (sort_by less zs)
  unfolding insert_all sort_by
  sort_by-append_lem [] zs = refl
  sort_by-append_lem (x ∷ xs) zs = rw (sort_by-append_lem xs zs)

  insert_all-insert_by :
      (x : A) (xs zs : List A)
      → insert_all (insert_by less x xs) zs ≡ insert_by less x (insert_all xs zs)
  unfolding insert_by insert_all
  insert_all-insert_by x [] zs = refl
  insert_all-insert_by x (y ∷ xs) zs = elim (Bool-cases (less y x)) [
    | inl e ↦
        rw (e, insert_all-insert_by x xs zs) (sym (insert_by-insert_by x y (insert_all xs zs) e))
    | inr e ↦ rw e refl
  ]

  insert_all-sort_by : (xs zs : List A) → insert_all (sort_by less xs) zs ≡ insert_all xs zs
  unfolding sort_by insert_all
  insert_all-sort_by [] zs = refl
  insert_all-sort_by (x ∷ xs) zs =
      insert_all-insert_by x (sort_by less xs) zs ∙ ap (insert_by less x) (insert_all-sort_by xs zs)

  -- What is sorted already may be sorted again with what is added.
  pub sort_by-append :
      (xs zs : List A) → sort_by less (sort_by less xs ++ zs) ≡ sort_by less (xs ++ zs)
  sort_by-append xs zs =
      sort_by-append_lem (sort_by less xs) zs
      ∙ insert_all-sort_by xs (sort_by less zs)
      ∙ sym (sort_by-append_lem xs zs)

-- The order by a numeric rank.
abbrev pub by_rank {ℓ} : {A : Type ℓ} → (A → ℕ) → A → A → Bool
by_rank rank a b = ltb (rank a) (rank b)

pub by_rank-IsOrder {ℓ} : {A : Type ℓ} (rank : A → ℕ) → IsOrder (by_rank rank)
by_rank-IsOrder rank = record { asymm = λ a b h. ground arith; trans = λ a b c h k. ground arith }

module _ {A B : Type 0} (f : A → B) (rank : B → ℕ) where
  map-All : (P : B → Type 0) (l : List A) → All (λ a. P (f a)) l → All P (map f l)
  map-All P [] h = tt
  map-All P (x ∷ l) (p, h) = (p, map-All P l h)

  -- Sorting by the rank of an image sorts the images.
  pub map-IsSorted :
      (l : List A) → IsSorted (by_rank (λ a. rank (f a))) l → IsSorted (by_rank rank) (map f l)
  map-IsSorted [] s = tt
  map-IsSorted (x ∷ l) (h, s) = (map-All (λ b. by_rank rank b (f x) ≡ false) l h, map-IsSorted l s)
