-- ===== src/Snapshot/Unchanged.antt =====
-- internal/snapshot/diff.go: when there is no drift.
use hsm_doctor.Base.{
  String, ◌≡◌, refl, ◌↔◌, true, Option, none, some, List, [], ◌∷◌, ◌++◌, arith, eq_iff, drop,
  length, Option-cases, inl, inr, Elem, ap,
}
use hsm_doctor.Base.Sort.{sort_by}
use hsm_doctor.Base.Dict.{Dict, lookup, or_zero, string_eq}
use hsm_doctor.Base.Clock.{Format}
use hsm_doctor.Inventory.{Inventory, Object, TokenInfo, CertInfo}
use hsm_doctor.Policy.Evaluate.{object_ref}
use hsm_doctor.Snapshot.{
  Diff, empty, count, change, token_changes, compare_token, name_set, only_in, compare_mechanisms,
  group, cert_changes, both_certs, bool_changes, attr_changes, paired_changes, compare_group,
  compare_groups, all_keys, compare_objects, no_drift, compare, none_left,
}
use hsm_doctor.Snapshot.Mechanisms.{only_in-Elem_iff}

none_left_iff : {A : Type 0} (xs : List A) → (none_left xs ≡ true) ↔ (length xs ≡ 0)
none_left_iff xs = ground arith

-- A diff is empty exactly when it counts no change.
pub empty-count_iff : (d : Diff) → (empty d ≡ true) ↔ (count d ≡ 0)
unfolding empty count
empty-count_iff d = ground (
  arith,
  none_left_iff d.token_changes,
  none_left_iff d.mechanisms_added,
  none_left_iff d.mechanisms_removed,
  none_left_iff d.objects_added,
  none_left_iff d.objects_removed,
  none_left_iff d.object_changes,
)

change_self : (object field v : String) → change object field v v ≡ []
change_self object field v = rw ((eq_iff v v).1 refl) refl

token_changes_self : (t : TokenInfo) → token_changes t t ≡ []
unfolding token_changes
token_changes_self t =
    rw
      (
        change_self "" "token label" t.label,
        change_self "" "serial number" t.serial_number,
        change_self "" "model" t.model,
        change_self "" "firmware version" t.firmware_version,
        change_self "" "hardware version" t.hardware_version,
      )
      refl

cert_changes_self : (fmt : Format) (ref : String) (c : CertInfo) → cert_changes fmt ref c c ≡ []
unfolding cert_changes
cert_changes_self fmt ref c = simp (change_self) refl

both_certs_self : (fmt : Format) (ref : String) (c : Option CertInfo) → both_certs fmt ref c c ≡ []
unfolding both_certs
both_certs_self fmt ref none = refl
both_certs_self fmt ref (some c) = cert_changes_self fmt ref c

attr_changes_self : (fmt : Format) (o : Object) → attr_changes fmt o o ≡ []
unfolding attr_changes bool_changes
attr_changes_self fmt o = simp (change_self, both_certs_self fmt (object_ref o) o.certificate) refl

drop_all : {A : Type 0} (xs : List A) → drop (length xs) xs ≡ []
drop_all [] = refl
drop_all (x ∷ xs) = drop_all xs

append_nil : {A : Type 0} (xs : List A) → xs ++ [] ≡ xs
append_nil [] = refl
append_nil (x ∷ xs) = ap (λ l. x ∷ l) (append_nil xs)

paired_changes_self : (fmt : Format) (os : List Object) → paired_changes fmt os os ≡ []
unfolding paired_changes
paired_changes_self fmt [] = refl
paired_changes_self fmt (o ∷ []) = attr_changes_self fmt o
paired_changes_self fmt (o ∷ p ∷ os) = refl

compare_group_self : (fmt : Format) (os : List Object) (d : Diff) → compare_group fmt os os d ≡ d
unfolding compare_group
compare_group_self fmt [] d = rw (append_nil d.objects_added) refl
compare_group_self fmt (o ∷ os) d =
    rw
      (
        paired_changes_self fmt (o ∷ os),
        drop_all os,
        append_nil d.object_changes,
        append_nil d.objects_added,
        append_nil d.objects_removed,
      )
      refl

compare_groups_self :
    (fmt : Format) (m : Dict String (List Object)) (ks : List String) (d : Diff)
    → compare_groups fmt m m ks d ≡ d
unfolding compare_groups
compare_groups_self fmt m [] d = refl
compare_groups_self fmt m (k ∷ ks) d =
    rw (compare_group_self fmt (or_zero [] (lookup k m)) d) (compare_groups_self fmt m ks d)

compare_token_self : (inv : Inventory) (d : Diff) → compare_token inv inv d ≡ d
unfolding compare_token
compare_token_self inv d = elim (Option-cases inv.slot.token) [
  | inl p ↦ rw p refl
  | inr (t, p) ↦ rw (p, token_changes_self t, append_nil d.token_changes) refl
]

nil_of_no_Elem : {A : Type 0} (xs : List A) → ((a : A) → ¬ (Elem a xs)) → xs ≡ []
nil_of_no_Elem [] h = refl
nil_of_no_Elem (x ∷ xs) h = absurd (h x (inl refl))

only_in_self : (inv : Inventory) → only_in (name_set inv) (name_set inv) ≡ []
only_in_self inv =
    nil_of_no_Elem (only_in (name_set inv) (name_set inv))
      (λ n m. let (yes_here, not_here) = (only_in-Elem_iff n inv inv).0 m in cc)

-- A scan compared with itself shows no drift at all.
pub compare_self :
    (fmt : Format) (inv : Inventory) → compare fmt inv inv ≡ no_drift inv.scanned_at inv.scanned_at
unfolding compare compare_objects compare_mechanisms sort_by
compare_self fmt inv =
    rw (compare_token_self inv (no_drift inv.scanned_at inv.scanned_at), only_in_self inv)
      (compare_groups_self fmt (group [] inv.objects)
        (all_keys (group [] inv.objects) (group [] inv.objects))
        (no_drift inv.scanned_at inv.scanned_at))
