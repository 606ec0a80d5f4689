-- ===== src/Policy/Facts/Laws.antt =====
-- internal/policy/eval.go: what the maps of `buildFacts` hold, said of the objects directly.
use hsm_doctor.Base.{
  ℕ, ◌+◌, String, ◌≡◌, refl, ◌≢◌, Bool, true, false, not, Option, some, List, [], ◌∷◌, ◌++◌, ◌&&◌,
  ◌||◌, ◌==◌, eq_iff, arith, if◌then◌else◌, any, keep, tally, map, Bool-cases, inl, inr, sym,
}
use mathlib.Core.List.{append-nil, append_assoc}
use hsm_doctor.Base.Dict.{Dict, lookup, lookup-insert, or_zero, string_eq}
use hsm_doctor.Inventory.{Object}
use hsm_doctor.Policy.Facts.{
  Facts, lookup₂, insert₂, note_label, note_owner, note_fingerprint, note, note_all,
  fingerprints_of, is_key, owned,
}

lookup₂-insert₂ :
    {V : Type 0} (z v : V) (a b c d : String) (m : Dict String (Dict String V))
    → lookup₂ z a b (insert₂ c d v m) ≡ (if c == a && d == b then v else lookup₂ z a b m)
unfolding lookup₂ insert₂
lookup₂-insert₂ z v a b c d m = rw lookup-insert (elim (Bool-cases (c == a)) [
  | inl same ↦
      let e = (eq_iff c a).0 same in
      rw (same, e, lookup-insert d b v (or_zero [] (lookup a m))) (or_zero_if (d == b) z v _)
  | inr other ↦ rw other refl
])
  where
    or_zero_if :
        {A : Type 0} (t : Bool) (z v : A) (o : Option A)
        → or_zero z (if t then some v else o) ≡ (if t then v else or_zero z o)
    or_zero_if true z v o = refl
    or_zero_if false z v o = refl

abbrev pub same_label : String → String → Object → Bool
same_label class label o = o.class == class && o.label == label

abbrev pub holds_id : String → String → Object → Bool
holds_id id class o = o.id == id && o.class == class

-- A key with a fingerprint, under an id.
abbrev pub keyed : String → Object → Bool
keyed id o = o.id == id && is_key o && not (o.public_key_fingerprint == "")

abbrev pub labels : Facts → String → String → ℕ
labels f class label = lookup₂ 0 class label f.duplicate_labels

note-labels :
    (class label : String) (f : Facts) (o : Object)
    → label ≢ ""
    → labels (note f o) class label
      ≡ labels f class label + (if same_label class label o then 1 else 0)
unfolding note note_label note_owner note_fingerprint
note-labels class label f o h = ground (
  arith,
  lookup₂-insert₂ 0 (labels f o.class o.label + 1) class label o.class o.label f.duplicate_labels,
  eq_iff o.class class,
  eq_iff o.label label,
  eq_iff o.label "",
)

note-owned :
    (id class : String) (f : Facts) (o : Object)
    → id ≢ ""
    → owned (note f o) id class ≡ (holds_id id class o || owned f id class)
unfolding note note_label note_owner note_fingerprint owned
note-owned id class f o h = ground (
  arith,
  lookup₂-insert₂ false true id class o.id o.class f.id_owners,
  eq_iff o.id id,
  eq_iff o.id "",
)

note-fingerprints :
    (id : String) (f : Facts) (o : Object)
    → id ≢ ""
    → fingerprints_of (note f o) id ≡ (
        if keyed id o
        then fingerprints_of f id ++ o.public_key_fingerprint ∷ []
        else fingerprints_of f id)
unfolding note note_label note_owner note_fingerprint fingerprints_of
note-fingerprints id f o h = ground (
  arith,
  lookup-insert o.id id
      (or_zero [] (lookup o.id f.key_fingerprints) ++ o.public_key_fingerprint ∷ [])
      f.key_fingerprints,
  eq_iff o.id id,
  eq_iff o.id "",
)

module _ (class label : String) (h : label ≢ "") where
  pub note_all-labels :
      (f : Facts) (os : List Object)
      → labels (note_all f os) class label
        ≡ labels f class label + tally (same_label class label) os
  unfolding note_all
  note_all-labels f [] = omega arith
  note_all-labels f (o ∷ os) =
      omega (arith, note_all-labels (note f o) os, note-labels class label f o h)

module _ (id : String) (h : id ≢ "") where
  pub note_all-owned :
      (class : String) (f : Facts) (os : List Object)
      → owned (note_all f os) id class ≡ (any (holds_id id class) os || owned f id class)
  unfolding note_all
  note_all-owned class f [] = refl
  note_all-owned class f (o ∷ os) =
      ground (arith, note_all-owned class (note f o) os, note-owned id class f o h)

  pub note_all-fingerprints :
      (f : Facts) (os : List Object)
      → fingerprints_of (note_all f os) id
        ≡ fingerprints_of f id ++ map (λ o. o.public_key_fingerprint) (keep (keyed id) os)
  unfolding note_all
  note_all-fingerprints f [] = sym (append-nil _)
  note_all-fingerprints f (o ∷ os) = elim (Bool-cases (keyed id o)) [
    | inl e ↦
        rw (e, note_all-fingerprints (note f o) os, note-fingerprints id f o h, e)
          (append_assoc (fingerprints_of f id) (o.public_key_fingerprint ∷ [])
            (map (λ p. p.public_key_fingerprint) (keep (keyed id) os)))
    | inr e ↦ rw (e, note_all-fingerprints (note f o) os, note-fingerprints id f o h, e) refl
  ]
