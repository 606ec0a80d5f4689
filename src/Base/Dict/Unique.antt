-- ===== src/Base/Dict/Unique.antt =====
-- Maps whose keys are all different, as every map is that starts empty: their values are what
-- `lookup` finds.
use hsm_doctor.Base.Tests.{Bool-cases}
use hsm_doctor.Base.Lists.{All, Elem, total}
use Prim.Native.Nat.{ℕ, ◌+◌}
use mathlib.Core.Path.{◌≡◌, refl, sym, subst}
use mathlib.Core.Logic.{◌≢◌, ◌↔◌, inl, inr}
use mathlib.Core.Bool.{false}
use mathlib.Core.Option.{none, some}
use mathlib.Core.List.{[], ◌∷◌}
use native.Mathlib.Omega.{arith}
use hsm_doctor.Base.Dict.{Eq, Dict, keys, values, lookup, insert, erase, or_zero}

module _ {K V : Type 0} where
  abbrev pub IsUnique : Dict K V → Type 0
  IsUnique [] = Unit
  IsUnique ((k, v) ∷ m) = All (λ j. j ≢ k) (keys m) × IsUnique m

module _ {K V : Type 0} ⦃e : Eq K⦄ where
  insert-All :
      (P : K → Type 0) (k : K) (v : V) (m : Dict K V)
      → P k
      → All P (keys m)
      → All P (keys (insert k v m))
  unfolding insert
  insert-All P k v [] p h = (p, tt)
  insert-All P k v ((j, w) ∷ m) p (q, h) = elim (Bool-cases (e.beq j k)) [
    | inl same ↦ rw same (p, h)
    | inr other ↦ rw other (q, insert-All P k v m p h)
  ]

  erase-All : (P : K → Type 0) (k : K) (m : Dict K V) → All P (keys m) → All P (keys (erase k m))
  unfolding erase
  erase-All P k [] h = tt
  erase-All P k ((j, w) ∷ m) (q, h) = elim (Bool-cases (e.beq j k)) [
    | inl same ↦ rw same (erase-All P k m h)
    | inr other ↦ rw other (q, erase-All P k m h)
  ]

  pub insert-IsUnique : (k : K) (v : V) (m : Dict K V) → IsUnique m → IsUnique (insert k v m)
  unfolding insert
  insert-IsUnique k v [] u = (tt, tt)
  insert-IsUnique k v ((j, w) ∷ m) (h, u) = elim (Bool-cases (e.beq j k)) [
    | inl same ↦ rw same (subst (λ i. All (λ x. x ≢ i) (keys m)) ((e.beq_iff j k).0 same) h, u)
    | inr other ↦ rw other (
      insert-All (λ x. x ≢ j) k v m (λ p. cc ((e.beq_iff j k).1 (sym p))) h,
      insert-IsUnique k v m u,
    )
  ]

  pub erase-IsUnique : (k : K) (m : Dict K V) → IsUnique m → IsUnique (erase k m)
  unfolding erase
  erase-IsUnique k [] u = tt
  erase-IsUnique k ((j, w) ∷ m) (h, u) = elim (Bool-cases (e.beq j k)) [
    | inl same ↦ rw same (erase-IsUnique k m u)
    | inr other ↦ rw other (erase-All (λ x. x ≢ j) k m h, erase-IsUnique k m u)
  ]

  absent : (k : K) (m : Dict K V) → All (λ j. j ≢ k) (keys m) → lookup k m ≡ none
  unfolding lookup
  absent k [] h = refl
  absent k ((j, w) ∷ m) (p, h) = ground (arith, e.beq_iff j k, p, absent k m h)

  -- A value is held exactly when some key has it.
  pub values-Elem_iff :
      (m : Dict K V) (v : V) → IsUnique m → Elem v (values m) ↔ ((k : K) × (lookup k m ≡ some v))
  unfolding lookup
  values-Elem_iff [] v u = (λ n. absurd n, λ h. cc (h.1))
  values-Elem_iff ((j, w) ∷ m) v (h, u) =
      let (to, from) = values-Elem_iff m v u in
      (
        elim [
          | inl p ↦ (j, ground (arith, e.beq_iff j j))
          | inr n ↦
              let (k, found) = to n in
              let other : e.beq j k ≡ false = ground (arith, e.beq_iff j k, absent j m h) in
              (k, rw other found)
        ],
        λ (k, found). elim (Bool-cases (e.beq j k)) [
          | inl same ↦ inl (ground arith)
          | inr other ↦ inr (from (k, ground arith))
        ],
      )

  pub keys-Elem_iff : (m : Dict K V) (k : K) → Elem k (keys m) ↔ (lookup k m ≢ none)
  unfolding lookup
  keys-Elem_iff [] k = (λ n. absurd n, λ h. h refl)
  keys-Elem_iff ((j, w) ∷ m) k =
      let (to, from) = keys-Elem_iff m k in
      elim (Bool-cases (e.beq j k)) [
        | inl same ↦ rw same (λ n p. cc, λ h. inl (sym ((e.beq_iff j k).0 same)))
        | inr other ↦
            rw other
              (elim [ inl p ↦ cc ((e.beq_iff j k).1 (sym p)) | inr n ↦ to n ], λ h. inr (from h))
      ]

  -- What a sum over the values becomes when one value is put in place of another.
  pub insert-total :
      (f : V → ℕ) (z : V) (k : K) (v : V) (m : Dict K V)
      → f z ≡ 0
      → total f (values (insert k v m)) + f (or_zero z (lookup k m)) ≡ total f (values m) + f v
  unfolding insert lookup
  insert-total f z k v [] h = omega arith
  insert-total f z k v ((j, w) ∷ m) h = elim (Bool-cases (e.beq j k)) [
    | inl same ↦ rw same (omega arith)
    | inr other ↦ rw other (omega (arith, insert-total f z k v m h))
  ]
