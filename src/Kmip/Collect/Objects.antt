-- ===== src/Kmip/Collect/Objects.antt =====
-- internal/kmip/collect.go: the objects that `Collect` returns.
use mathlib.Core.Path.{subst}
use hsm_doctor.Base.{
  suc, ◌≡◌, refl, sym, ◌∙◌, ap, ◌↔◌, inl, inr, String, Bool, List, [], ◌∷◌, arith, Any, Elem,
  length,
}
use hsm_doctor.Base.Sort.{sort_by, IsSorted, sort_by-IsSorted, sort_by-Any_iff, IsOrder}
use hsm_doctor.Base.Sort.Length.{length-sort_by}
use hsm_doctor.Base.Text.{◌+++◌, str_lt}
use hsm_doctor.Base.Text.Order.{str_lt-IsOrder}
use hsm_doctor.Base.Clock.{Time}
use hsm_doctor.Base.Fallible.{Fallible, done, failed, >>=-eq-done}
use hsm_doctor.Kmip.{Object, Inventory}
use hsm_doctor.Kmip.Collect.{
  Items, Kmip14, Request, discover_versions, locate, located, wrapped, get_object, get_objects,
  collect,
}

abbrev pub by_id : Object → Object → Bool
by_id a b = str_lt a.id b.id

by_id-IsOrder : IsOrder by_id
by_id-IsOrder = record {
  asymm = λ a b. str_lt-IsOrder.asymm a.id b.id;
  trans = λ a b c. str_lt-IsOrder.trans a.id b.id c.id;
}

wrapped-eq-done :
    {A : Type 0} (prefix : String) (m : Fallible A) (a : A) → wrapped prefix m ≡ done a → m ≡ done a
wrapped-eq-done prefix (done b) a e = e
wrapped-eq-done prefix (failed t) a e = cc

module _ (k : Kmip14) (ask : Request → Fallible Items) where
  -- The answer about some id among these is this object.
  abbrev pub Answers : List String → Object → Type 0
  Answers ids o = Any (λ id. get_object k ask id ≡ done o) ids

  get_objects-cons :
      (id : String) (ids : List String) {os : List Object}
      → get_objects k ask (id ∷ ids) ≡ done os
      → (x : Object) × (more : List Object) × (get_object k ask id ≡ done x)
        × (get_objects k ask ids ≡ done more)
        × (x ∷ more ≡ os)
  unfolding get_objects
  get_objects-cons id ids {os} e =
      let (x, p, q) =
        >>=-eq-done (wrapped ("get attributes for " +++ id +++ ": ") (get_object k ask id)) _ e in
      let (more, r, s) = >>=-eq-done (get_objects k ask ids) _ q in
      (x, more, wrapped-eq-done _ (get_object k ask id) x p, r, cc)

  abbrev Answered : List String → List Object → Type 0
  Answered ids os = (length os ≡ length ids) × ((o : Object) → Elem o os ↔ Answers ids o)

  get_objects-Answered :
      (ids : List String) (os : List Object) → get_objects k ask ids ≡ done os → Answered ids os
  unfolding get_objects
  get_objects-Answered [] os e =
      let nothing : [] ≡ os = cc in subst (Answered []) nothing (refl, λ o. (λ n. n, λ n. n))
  get_objects-Answered (id ∷ ids) os e =
      let (x, more, p, q, r) = get_objects-cons id ids e in
      let (n, ih) = get_objects-Answered ids more q in
      subst (Answered (id ∷ ids)) r (
        ap suc n,
        λ o. (
          elim [ inl s ↦ inl (p ∙ ap done (sym s)) | inr m ↦ inr ((ih o).0 m) ],
          elim [ inl s ↦ inl (cc) | inr m ↦ inr ((ih o).1 m) ],
        ),
      )

  -- A successful run returns as many objects as the server located, ordered by their ids, and they
  -- are the objects that the server describes for the located ids.
  pub collect-objects :
      (endpoint : String) (now : Time) (o : Object) {inv : Inventory}
      → collect k ask endpoint now ≡ done inv
      → (ids : Items) × (ask locate ≡ done ids)
        × IsSorted by_id inv.objects
        × (length inv.objects ≡ length (located ids))
        × (Elem o inv.objects ↔ Answers (located ids) o)
  unfolding collect
  collect-objects endpoint now o {inv} e =
      let (versions, _, e₁) =
        >>=-eq-done (wrapped "discover versions: " (ask discover_versions)) _ e in
      let (ids, p, e₂) = >>=-eq-done (wrapped "locate: " (ask locate)) _ e₁ in
      let (os, q, e₃) = >>=-eq-done (get_objects k ask (located ids)) _ e₂ in
      let (n, m) = get_objects-Answered (located ids) os q in
      let sorted : sort_by by_id os ≡ inv.objects = ground arith in
      let (to, from) = sort_by-Any_iff by_id (λ x. o ≡ x) os in
      (
        ids,
        wrapped-eq-done "locate: " (ask locate) ids p,
        subst (IsSorted by_id) sorted (sort_by-IsSorted by_id-IsOrder os),
        subst (λ l. length l ≡ length (located ids)) sorted (length-sort_by by_id os ∙ n),
        subst (λ l. Elem o l ↔ Answers (located ids) o) sorted
            (λ h. (m o).0 (to h), λ h. from ((m o).1 h)),
      )
