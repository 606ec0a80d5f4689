-- ===== src/Policy/Load/Ids.antt =====
-- internal/policy/policy.go: rule ids that no other rule has.
use hsm_doctor.Base.{String, ◌≡◌, refl, ◌≢◌, ◌↔◌, none, List, [], ◌∷◌, eq_iff, arith, All, All-map}
use hsm_doctor.Base.Dict.{Dict, lookup, insert, lookup-insert, string_eq}
use hsm_doctor.Policy.Condition.{Rule}

-- No two rules have the same id.
abbrev pub IsDistinct : List Rule → Type 0
IsDistinct [] = Unit
IsDistinct (r ∷ rs) = All (λ q. q.id ≢ r.id) rs × IsDistinct rs

-- Nor has any of them an id that was seen before.
abbrev pub IsFresh : {V : Type 0} → Dict String V → List Rule → Type 0
IsFresh seen rs = All (λ q. lookup q.id seen ≡ none) rs × IsDistinct rs

module _ {V : Type 0} (seen : Dict String V) (k : String) (v : V) where
  insert-fresh_iff :
      (q : String) → (lookup q (insert k v seen) ≡ none) ↔ ((q ≢ k) × (lookup q seen ≡ none))
  insert-fresh_iff q = rw lookup-insert (ground (arith, eq_iff k q))

  -- After `k` was seen, fresh means: fresh before, and none of the ids is `k`.
  pub All-insert_iff :
      (rs : List Rule)
      → All (λ q. lookup q.id (insert k v seen) ≡ none) rs
        ↔ (All (λ q. q.id ≢ k) rs × All (λ q. lookup q.id seen ≡ none) rs)
  All-insert_iff rs = (
    λ h. (
      All-map rs (λ q e. ((insert-fresh_iff q.id).0 e).0) h,
      All-map rs (λ q e. ((insert-fresh_iff q.id).0 e).1) h,
    ),
    λ (h, g). both rs h g,
  )
    where
      both :
          (rs : List Rule)
          → All (λ q. q.id ≢ k) rs
          → All (λ q. lookup q.id seen ≡ none) rs
          → All (λ q. lookup q.id (insert k v seen) ≡ none) rs
      both [] h g = tt
      both (q ∷ rs) (a, h) (b, g) = ((insert-fresh_iff q.id).1 (a, b), both rs h g)

module _ (V : Type 0) where
  pub IsFresh-nil : (rs : List Rule) → IsDistinct rs → IsFresh {V = V} [] rs
  unfolding lookup
  IsFresh-nil rs d = (empty_seen rs, d)
    where
      empty_seen : (rs : List Rule) → All (λ q. lookup {V = V} q.id [] ≡ none) rs
      empty_seen [] = tt
      empty_seen (q ∷ rs) = (refl, empty_seen rs)

-- Fresh and distinct rules, one more in front: its id was not seen, and the others stay fresh once
-- it is seen.
pub IsFresh-cons_iff :
    {V : Type 0} (seen : Dict String V) (v : V) (r : Rule) (rs : List Rule)
    → IsFresh seen (r ∷ rs) ↔ ((lookup r.id seen ≡ none) × IsFresh (insert r.id v seen) rs)
IsFresh-cons_iff seen v r rs =
    let (to, from) = All-insert_iff seen r.id v rs in
    (λ h. (h.0.0, (from (h.1.0, h.0.1), h.1.1)), λ h. ((h.0, (to h.1.0).1), ((to h.1.0).0, h.1.1)))
