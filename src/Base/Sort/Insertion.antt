-- ===== src/Base/Sort/Insertion.antt =====
-- Insertion sort in place: the sorted front of the slice is kept in reverse, and a new element
-- sinks into it from the back. The result is that of the stable sort.
use mathlib.Core.Path.{◌≡◌, refl, sym, ap, ◌∙◌}
use mathlib.Core.Logic.{inl, inr}
use mathlib.Core.Bool.{Bool, false}
use mathlib.Core.List.{List, [], ◌∷◌, ◌++◌}
use hsm_doctor.Base.Tests.{if◌then◌else◌, Bool-cases}
use hsm_doctor.Base.Lists.{All}
use hsm_doctor.Base.Sort.{
  insert_by, sort_by, IsSorted, IsOrder, sort_by-IsSorted, sort_by-append, insert_by-insert_by,
}

abbrev pub onto {ℓ} : {A : Type ℓ} → List A → List A → List A
onto [] acc = acc
onto (x ∷ xs) acc = onto xs (x ∷ acc)

module _ {ℓ} {A : Type ℓ} (less : A → A → Bool) where
  -- The inner loop: an element that is not less stops it.
  unfoldable pub sink : List A → A → List A
  sink [] x = x ∷ []
  sink (p ∷ ps) x = if less x p then p ∷ sink ps x else x ∷ p ∷ ps

  -- The outer loop.
  unfoldable pub sink_all : List A → List A → List A
  unfolding sink
  sink_all front [] = onto front []
  sink_all front (x ∷ xs) = sink_all (sink front x) xs

module _ {ℓ} {A : Type ℓ} {less : A → A → Bool} (o : IsOrder less) where
  pub sort_by-eq : (l : List A) → IsSorted less l → sort_by less l ≡ l
  unfolding sort_by insert_by
  sort_by-eq [] s = refl
  sort_by-eq (x ∷ l) (h, s) = rw (sort_by-eq l s) (first x l h)
    where
      first : (x : A) (l : List A) → All (λ y. less y x ≡ false) l → insert_by less x l ≡ x ∷ l
      first x [] h = refl
      first x (y ∷ l) (p, h) = rw p refl

  sort_by-onto :
      (l u v : List A)
      → sort_by less u ≡ sort_by less v
      → sort_by less (onto l u) ≡ sort_by less (onto l v)
  unfolding sort_by
  sort_by-onto [] u v h = h
  sort_by-onto (x ∷ l) u v h = sort_by-onto l (x ∷ u) (x ∷ v) (ap (insert_by less x) h)

  onto-IsSorted :
      (l u v : List A)
      → (IsSorted less u → IsSorted less v)
      → ((q : A) → All (λ y. less y q ≡ false) u → All (λ y. less y q ≡ false) v)
      → IsSorted less (onto l u)
      → IsSorted less (onto l v)
  onto-IsSorted [] u v f g s = f s
  onto-IsSorted (x ∷ l) u v f g s =
      onto-IsSorted l (x ∷ u) (x ∷ v) (λ (h, t). (g x h, f t)) (λ q (p, h). (p, g q h)) s

  sink_lem :
      (front acc : List A) (x : A)
      → IsSorted less (onto front acc)
      → All (λ y. less y x ≡ false) acc
      → onto (sink less front x) acc ≡ sort_by less (onto front (x ∷ acc))
  unfolding sink sort_by
  sink_lem [] acc x s h = sym (sort_by-eq (x ∷ acc) (h, s))
  sink_lem (p ∷ ps) acc x s h = elim (Bool-cases (less x p)) [
    | inl e ↦ rw e (
        sink_lem ps (p ∷ acc) x s (o.asymm x p e, h)
        ∙ sym (
            sort_by-onto ps (p ∷ x ∷ acc) (x ∷ p ∷ acc)
              (insert_by-insert_by o p x (sort_by less acc) e)))
    | inr e ↦ rw e (
        sym (
          sort_by-eq (onto ps (p ∷ x ∷ acc)) (
            onto-IsSorted ps (p ∷ acc) (p ∷ x ∷ acc) (λ (k, t). ((e, k), (h, t)))
              (λ q (k, t). (k, (o.trans q p x k e, t))) s)))
  ]

  onto-append : (l xs : List A) → onto l xs ≡ onto l [] ++ xs
  onto-append l xs = go l []
    where
      go : (l acc : List A) → onto l (acc ++ xs) ≡ onto l acc ++ xs
      go [] acc = refl
      go (x ∷ l) acc = go l (x ∷ acc)

  sink_all_lem :
      (front xs : List A)
      → IsSorted less (onto front [])
      → sink_all less front xs ≡ sort_by less (onto front xs)
  unfolding sink_all
  sink_all_lem front [] s = sym (sort_by-eq (onto front []) s)
  sink_all_lem front (x ∷ xs) s =
      let sunk = sink_lem front [] x s tt in
      sink_all_lem (sink less front x) xs (rw sunk (sort_by-IsSorted o (onto front (x ∷ []))))
      ∙ ap (sort_by less) (onto-append (sink less front x) xs ∙ ap (λ l. l ++ xs) sunk)
      ∙ sort_by-append o (onto front (x ∷ [])) xs
      ∙ ap (sort_by less) (sym (onto-cons x))
    where
      onto-cons : (x : A) → onto front (x ∷ xs) ≡ onto front (x ∷ []) ++ xs
      onto-cons x = onto-append (x ∷ front) xs

  pub sink_all-sort_by : (xs : List A) → sink_all less [] xs ≡ sort_by less xs
  sink_all-sort_by xs = sink_all_lem [] xs tt
