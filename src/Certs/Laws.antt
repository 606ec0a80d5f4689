-- ===== src/Certs/Laws.antt =====
-- internal/certmon/certmon.go: which certificates are listed, in which order, and the counts.
use hsm_doctor.Base.{
  ◌+◌, String, ◌≡◌, refl, ◌↔◌, inl, inr, Bool, true, false, Option, none, some, List, [], ◌∷◌, ◌==◌,
  arith, eq_iff, length, Elem, Elem-append_iff, Bool-cases, Any, tally,
}
use hsm_doctor.Base.Int.{ℤ}
use hsm_doctor.Base.Sort.{IsSorted, IsOrder, sort_by-IsSorted, sort_by-Any_iff}
use hsm_doctor.Base.Dict.{Dict, string_eq}
use hsm_doctor.Base.Clock.{Time, Format}
use hsm_doctor.Inventory.{Inventory, Object, CertInfo, class_certificate}
use hsm_doctor.Policy.Facts.{
  Facts, build_facts, no_facts, note, note_all, note_fingerprint, note_owner, note_label,
  fingerprints_of, mismatch, cert_key_mismatch, is_key,
}
use hsm_doctor.Certs.{
  Status, ok, expiring, expired, Entry, note_key, note_keys, key_mismatch, entry_of, listed,
  entries_of_object, entries, sooner, classify, Counts, count_entry, count_from, counts,
}

sooner-IsOrder : IsOrder sooner
sooner-IsOrder = record { asymm = λ a b h. ground arith; trans = λ a b c h k. ground arith }

-- The list begins with the certificate that expires first.
pub classify-IsSorted :
    (fmt : Format) (inv : Inventory) (now : Time) (warn_days : ℤ)
    → IsSorted sooner (classify fmt inv now warn_days)
unfolding classify
classify-IsSorted fmt inv now warn_days =
    sort_by-IsSorted sooner-IsOrder
      (entries fmt now warn_days (note_keys [] inv.objects) inv.objects)

module _ (fmt : Format) (now : Time) (warn_days : ℤ) (key_fps : Dict String (List String)) where
  abbrev IsEntryOf : Entry → Object → Type 0
  IsEntryOf e o =
      (o.class ≡ class_certificate)
      × ((c : CertInfo) × (o.certificate ≡ some c) × (e ≡ entry_of fmt now warn_days key_fps o c))

  listed-Elem_iff :
      (o : Object) (cert : Option CertInfo) (e : Entry)
      → Elem e (listed fmt now warn_days key_fps o cert)
        ↔ ((c : CertInfo) × (cert ≡ some c) × (e ≡ entry_of fmt now warn_days key_fps o c))
  unfolding listed
  listed-Elem_iff o none e = (λ n. absurd n, λ (c, p, q). absurd (ground (arith, p)))
  listed-Elem_iff o (some d) e = (
    elim [ inl q ↦ (d, refl, q) | inr n ↦ absurd n ],
    λ (c, p, q). let same : c ≡ d = ground (arith, p) in inl (rw (← same) q),
  )

  entries_of_object-Elem_iff :
      (o : Object) (e : Entry)
      → Elem e (entries_of_object fmt now warn_days key_fps o) ↔ IsEntryOf e o
  unfolding entries_of_object
  entries_of_object-Elem_iff o e =
      let (same, eq) = eq_iff o.class class_certificate in
      let (to, from) = listed-Elem_iff o o.certificate e in
      elim (Bool-cases (o.class == class_certificate)) [
        | inl is_cert ↦ rw is_cert (λ m. (same is_cert, to m), λ (p, h). from h)
        | inr no_cert ↦ rw no_cert (λ n. absurd n, λ (p, h). cc (eq p))
      ]

  entries-Elem_iff :
      (os : List Object) (e : Entry)
      → Elem e (entries fmt now warn_days key_fps os) ↔ Any (IsEntryOf e) os
  unfolding entries
  entries-Elem_iff [] e = (λ n. n, λ n. n)
  entries-Elem_iff (o ∷ os) e =
      let (to, from) = entries-Elem_iff os e in
      let (to', from') = entries_of_object-Elem_iff o e in
      let (split, join) =
        Elem-append_iff e (entries_of_object fmt now warn_days key_fps o)
          (entries fmt now warn_days key_fps os) in
      (
        λ m. elim (split m) [ inl h ↦ inl (to' h) | inr h ↦ inr (to h) ],
        elim [ inl h ↦ join (inl (from' h)) | inr h ↦ join (inr (from h)) ],
      )

-- Exactly the objects of the certificate class whose certificate was read are listed, each with
-- its status, its days left and its warnings.
pub classify-Elem_iff :
    (fmt : Format) (inv : Inventory) (now : Time) (warn_days : ℤ) (e : Entry)
    → Elem e (classify fmt inv now warn_days)
      ↔ Any
          (λ o.
            (o.class ≡ class_certificate)
            × ((c : CertInfo) × (o.certificate ≡ some c)
                × (e ≡ entry_of fmt now warn_days (note_keys [] inv.objects) o c)))
          inv.objects
unfolding classify
classify-Elem_iff fmt inv now warn_days e =
    let fps = note_keys [] inv.objects in
    let (to, from) = entries-Elem_iff fmt now warn_days fps inv.objects e in
    let (in_to, in_from) =
      sort_by-Any_iff sooner (λ x. e ≡ x) (entries fmt now warn_days fps inv.objects) in
    (λ m. to (in_to m), λ h. in_from (from h))

abbrev same_status : Status → Status → Bool
same_status ok ok = true
same_status expiring expiring = true
same_status expired expired = true
same_status _ _ = false

count_from_lem :
    (c : Counts) (es : List Entry)
    → ((count_from c es).ok ≡ c.ok + tally (λ e. same_status e.status ok) es)
      × ((count_from c es).expiring ≡ c.expiring + tally (λ e. same_status e.status expiring) es)
      × ((count_from c es).expired ≡ c.expired + tally (λ e. same_status e.status expired) es)
unfolding count_from count_entry
count_from_lem c [] = (omega arith, omega arith, omega arith)
count_from_lem c (e ∷ es) =
    let (a, b, d) = count_from_lem (count_entry c e) es in ground (arith, a, b, d)

-- Each entry is counted once: the three counts add up to the number of entries.
pub counts-length :
    (es : List Entry) → (counts es).ok + (counts es).expiring + (counts es).expired ≡ length es
unfolding counts
counts-length es =
    let (a, b, d) = count_from_lem (record { ok = 0; expiring = 0; expired = 0 }) es in
    omega (arith, a, b, d, all_counted es)
  where
    all_counted :
        (es : List Entry)
        → tally (λ e. same_status e.status ok) es
            + tally (λ e. same_status e.status expiring) es
            + tally (λ e. same_status e.status expired) es
          ≡ length es
    all_counted [] = omega arith
    all_counted (e ∷ es) = ground (arith, all_counted es)

note-fingerprints :
    (f : Facts) (o : Object) → (note f o).key_fingerprints ≡ note_key f.key_fingerprints o
unfolding note note_label note_owner note_fingerprint note_key is_key
note-fingerprints f o = ground arith

note_all-fingerprints :
    (f : Facts) (os : List Object)
    → (note_all f os).key_fingerprints ≡ note_keys f.key_fingerprints os
unfolding note_all note_keys
note_all-fingerprints f [] = refl
note_all-fingerprints f (o ∷ os) =
    rw (← note-fingerprints f o) (note_all-fingerprints (note f o) os)

-- The warning of a key mismatch and the policy's test for one agree on every certificate.
pub key_mismatch-facts :
    (inv : Inventory) (now : Time) (o : Object) (c : CertInfo)
    → o.class ≡ class_certificate
    → o.certificate ≡ some c
    → key_mismatch o c (note_keys [] inv.objects) ≡ cert_key_mismatch (build_facts inv now) o
unfolding key_mismatch cert_key_mismatch build_facts mismatch fingerprints_of
key_mismatch-facts inv now o c class_eq p =
    rw (class_eq, p, note_all-fingerprints (no_facts now) inv.objects) (ground arith)
