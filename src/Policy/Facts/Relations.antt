-- ===== src/Policy/Facts/Relations.antt =====
-- internal/policy/eval.go: duplicate labels, orphans and certificates that do not match their keys,
-- said of the inventory's objects directly.
use hsm_doctor.Base.{
  ◌<◌, String, ◌≡◌, refl, ◌≢◌, ◌↔◌, ◌⊎◌, Bool, true, false, not, some, List, [], ◌∷◌, ◌&&◌, ◌||◌,
  ◌==◌, eq_iff, arith, if◌then◌else◌, any, keep, tally, map, Any, All, any_iff, any_none_iff,
  Bool-cases, Option-cases, inl, inr, ◌∙◌,
}
use hsm_doctor.Base.Dict.{lookup}
use hsm_doctor.Base.Clock.{Time}
use hsm_doctor.Inventory.{
  Inventory, Object, CertInfo, contains, class_private_key, class_public_key, class_certificate,
}
use hsm_doctor.Policy.Facts.{
  Facts, lookup₂, build_facts, no_facts, fingerprints_of, mismatch, cert_key_mismatch,
  is_duplicate_label, owned, is_orphan,
}
use hsm_doctor.Policy.Facts.Laws.{
  same_label, holds_id, keyed, labels, note_all-labels, note_all-owned, note_all-fingerprints,
}

or_false : (b : Bool) → (b || false) ≡ b
or_false true = refl
or_false false = refl

fingerprints : (Object → Bool) → List Object → List String
fingerprints k os = map (λ p. p.public_key_fingerprint) (keep k os)

abbrev is_filled : List String → Bool
is_filled [] = false
is_filled (s ∷ l) = true

fingerprints-filled :
    (k : Object → Bool) (os : List Object) → is_filled (fingerprints k os) ≡ any k os
unfolding fingerprints
fingerprints-filled k [] = refl
fingerprints-filled k (o ∷ os) = ground (arith, fingerprints-filled k os)

contains-fingerprints :
    (k : Object → Bool) (v : String) (os : List Object)
    → contains (fingerprints k os) v ≡ any (λ p. k p && p.public_key_fingerprint == v) os
unfolding fingerprints contains
contains-fingerprints k v [] = refl
contains-fingerprints k v (o ∷ os) = ground (arith, contains-fingerprints k v os)

mismatch_lem :
    (f : Facts) (o : Object) (c : CertInfo)
    → mismatch f o c ≡ (
        not (c.public_key_fingerprint == "")
        && is_filled (fingerprints_of f o.id)
        && not (contains (fingerprints_of f o.id) c.public_key_fingerprint))
unfolding mismatch
mismatch_lem f o c = go (fingerprints_of f o.id) (c.public_key_fingerprint == "")
  where
    go :
        (l : List String) (t : Bool)
        → (if t then false else elim l [
          | [] ↦ false
          | fp ∷ fps ↦ not (contains (fp ∷ fps) c.public_key_fingerprint)
        ])
          ≡ (not t && is_filled l && not (contains l c.public_key_fingerprint))
    go [] true = refl
    go [] false = refl
    go (x ∷ l) true = refl
    go (x ∷ l) false = refl

-- No object is both a private key and a certificate.
classes_apart : (class : String) → class ≡ class_certificate → (class == class_private_key) ≡ false
classes_apart class e = rw e refl

module _ (inv : Inventory) (now : Time) where
  build_facts-labels :
      (class label : String)
      → label ≢ ""
      → labels (build_facts inv now) class label ≡ tally (same_label class label) inv.objects
  unfolding build_facts lookup₂ lookup
  build_facts-labels class label h =
      omega (arith, note_all-labels class label h (no_facts now) inv.objects)

  build_facts-owned :
      (id class : String)
      → id ≢ ""
      → owned (build_facts inv now) id class ≡ any (holds_id id class) inv.objects
  unfolding build_facts owned lookup₂ lookup
  build_facts-owned id class h =
      note_all-owned id h class (no_facts now) inv.objects
      ∙ or_false (any (holds_id id class) inv.objects)

  build_facts-fingerprints :
      (id : String)
      → id ≢ ""
      → fingerprints_of (build_facts inv now) id ≡ fingerprints (keyed id) inv.objects
  unfolding build_facts fingerprints_of lookup fingerprints
  build_facts-fingerprints id h = note_all-fingerprints id h (no_facts now) inv.objects

  -- A label is a duplicate exactly when it is not empty and two or more objects of the same class
  -- carry it.
  pub is_duplicate_label_iff :
      (o : Object)
      → (is_duplicate_label (build_facts inv now) o ≡ true)
        ↔ ((o.label ≢ "") × (1 < tally (same_label o.class o.label) inv.objects))
  unfolding is_duplicate_label
  is_duplicate_label_iff o = elim (Bool-cases (o.label == "")) [
    | inl e ↦ rw e (λ f. cc, λ h. absurd (h.0 ((eq_iff o.label "").0 e)))
    | inr e ↦
        let h : o.label ≢ "" = λ p. cc ((eq_iff o.label "").1 p) in
        rw (e, build_facts-labels o.class o.label h) (λ t. (h, ground arith), λ t. ground arith)
  ]

  -- What makes an object an orphan: a private key whose id no certificate and no public key
  -- shares, or a certificate whose id no private key shares; in both, one without an id.
  abbrev pub IsOrphan : Object → Type 0
  IsOrphan o =
      (o.class ≡ class_private_key)
        × ((o.id ≡ "")
            ⊎ (All (λ p. holds_id o.id class_certificate p ≡ false) inv.objects
                × All (λ p. holds_id o.id class_public_key p ≡ false) inv.objects))
      ⊎ (o.class ≡ class_certificate)
        × ((o.id ≡ "") ⊎ All (λ p. holds_id o.id class_private_key p ≡ false) inv.objects)

  -- Exactly these are reported as orphans: a private key without an id or with no certificate and no
  -- public key under its id, and a certificate without an id or with no private key under its id.
  pub is_orphan_iff : (o : Object) → (is_orphan (build_facts inv now) o ≡ true) ↔ IsOrphan o
  unfolding is_orphan
  is_orphan_iff o = elim (Bool-cases (o.id == "")) [
    | inl e ↦ ground (
      arith,
      eq_iff o.class class_private_key,
      eq_iff o.class class_certificate,
      eq_iff o.id "",
      classes_apart o.class,
    )
    | inr e ↦
        let h : o.id ≢ "" = λ p. cc ((eq_iff o.id "").1 p) in
        ground (
          arith,
          build_facts-owned o.id class_certificate h,
          build_facts-owned o.id class_public_key h,
          build_facts-owned o.id class_private_key h,
          any_none_iff (holds_id o.id class_certificate) inv.objects,
          any_none_iff (holds_id o.id class_public_key) inv.objects,
          any_none_iff (holds_id o.id class_private_key) inv.objects,
          eq_iff o.class class_private_key,
          eq_iff o.class class_certificate,
          eq_iff o.id "",
          classes_apart o.class,
        )
  ]

  -- Keys with a fingerprint share the object's id, and none of them has the fingerprint of the
  -- certificate's public key.
  abbrev pub Contradicts : Object → CertInfo → Type 0
  Contradicts o c =
      (c.public_key_fingerprint ≢ "")
      × Any (λ p. keyed o.id p ≡ true) inv.objects
      × All (λ p. (keyed o.id p && p.public_key_fingerprint == c.public_key_fingerprint) ≡ false)
          inv.objects

  mismatch_iff :
      (o : Object) (c : CertInfo)
      → o.id ≢ ""
      → (mismatch (build_facts inv now) o c ≡ true) ↔ Contradicts o c
  mismatch_iff o c h =
      let k = keyed o.id in
      let v = c.public_key_fingerprint in
      rw (mismatch_lem, build_facts-fingerprints o.id h)
        (ground (
          arith,
          fingerprints-filled k inv.objects,
          contains-fingerprints k v inv.objects,
          any_iff k inv.objects,
          any_none_iff (λ p. k p && p.public_key_fingerprint == v) inv.objects,
          eq_iff v "",
        ))

  -- A certificate is reported as a mismatch exactly when it has an id under which there are keys
  -- that it contradicts; an object without certificate details never is.
  pub cert_key_mismatch_iff :
      (o : Object)
      → (cert_key_mismatch (build_facts inv now) o ≡ true) ↔ (
          (c : CertInfo) × (o.certificate ≡ some c)
          × (o.class ≡ class_certificate)
          × (o.id ≢ "")
          × Contradicts o c)
  unfolding cert_key_mismatch
  cert_key_mismatch_iff o = (
    λ t. elim (Option-cases o.certificate) [
      | inl e ↦ absurd (ground arith)
      | inr (c, e) ↦
          let h : o.id ≢ "" = ground (arith, eq_iff o.id "") in
          (
            c,
            e,
            ground (arith, eq_iff o.class class_certificate),
            h,
            (mismatch_iff o c h).0 (ground arith),
          )
    ],
    λ (c, e, is_cert, h, bad).
        ground
          (arith, (mismatch_iff o c h).1 bad, eq_iff o.class class_certificate, eq_iff o.id ""),
  )
