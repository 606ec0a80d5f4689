-- ===== src/Snapshot/Balance.antt =====
-- internal/snapshot/diff.go: the objects that a diff reports account for every object of both
-- scans.
use hsm_doctor.Base.{
  ℕ, zero, suc, ◌+◌, ◌-◌, ◌≤◌, String, ◌≡◌, refl, Bool, true, List, [], ◌∷◌, ◌++◌, ◌==◌, arith,
  eq_iff, drop, length, length-append, total, map, Option-cases, if◌then◌else◌, inl, inr, Elem, All,
  All-map, ◌∙◌, ap, Bool-cases,
}
use hsm_doctor.Base.Sort.{sort_by-total}
use hsm_doctor.Base.Dict.{Dict, keys, lookup, insert, or_zero, string_eq, lookup-insert}
use hsm_doctor.Base.Text.{◌+++◌, str_lt}
use hsm_doctor.Base.Clock.{Format}
use hsm_doctor.Inventory.{Inventory, Object}
use hsm_doctor.Policy.Evaluate.{object_ref}
use hsm_doctor.Snapshot.{
  Diff, object_key, compare_token, add_names, compare_mechanisms, group, duplicates, compare_group,
  compare_groups, all_keys, compare_objects, no_drift, compare,
}
use hsm_doctor.Snapshot.Mechanisms.{keys-insert}

-- How often a key occurs.
occurrences : String → List String → ℕ
occurrences j ks = total (λ k. if j == k then 1 else 0) ks

occurrences-insert :
    {V : Type 0} (j k : String) (v : V) (m : Dict String V)
    → (j ≡ k → occurrences j (keys m) ≤ 1 → occurrences j (keys (insert k v m)) ≡ 1)
      × ((j ≡ k → ⊥) → occurrences j (keys (insert k v m)) ≡ occurrences j (keys m))
unfolding occurrences insert
occurrences-insert j k v [] = ground (arith, eq_iff j k)
occurrences-insert j k v ((i, w) ∷ m) =
    let (at_key, elsewhere) = occurrences-insert j k v m in
    elim (Bool-cases (i == k)) [
      | inl same ↦ rw same (
        ground (arith, eq_iff j k, eq_iff j i, eq_iff i k),
        ground (arith, eq_iff j k, eq_iff j i, eq_iff i k),
      )
      | inr other ↦
          rw other
            (ground (arith, at_key, eq_iff j k, eq_iff j i, eq_iff i k), ground (arith, elsewhere))
    ]

occurrences-add_names :
    (j : String) (s : Dict String Bool) (ns : List String)
    → occurrences j (keys s) ≤ 1
    → (occurrences j (keys (add_names s ns)) ≤ 1)
      × (occurrences j (keys s) ≤ occurrences j (keys (add_names s ns)))
      × (Elem j ns → occurrences j (keys (add_names s ns)) ≡ 1)
unfolding add_names
occurrences-add_names j s [] h = (h, omega arith, λ n. absurd n)
occurrences-add_names j s (n ∷ ns) h =
    let (at_key, elsewhere) = occurrences-insert j n true s in
    let rest = occurrences-add_names j (insert n true s) ns in
    elim (Bool-cases (j == n)) [
      | inl same ↦
          let one = at_key ((eq_iff j n).0 same) h in
          let (few, more, all) = rest (omega (arith, one)) in
          (few, omega (arith, one, more), λ m. omega (arith, one, few, more))
      | inr other ↦
          let kept = elsewhere (λ e. cc ((eq_iff j n).1 e)) in
          let (few, more, all) = rest (omega (arith, kept)) in
          (few, omega (arith, kept, more), elim [ inl e ↦ cc ((eq_iff j n).1 e) | inr m ↦ all m ])
    ]

map-length : {A B : Type 0} (f : A → B) (xs : List A) → length (map f xs) ≡ length xs
map-length f [] = refl
map-length f (x ∷ xs) = ap (λ n. suc n) (map-length f xs)

length-drop : {A : Type 0} (n : ℕ) (xs : List A) → length (drop n xs) ≡ length xs - n
length-drop zero xs = omega arith
length-drop (suc n) [] = omega arith
length-drop (suc n) (x ∷ xs) = omega (arith, length-drop n xs)

compare_group-balance :
    (fmt : Format) (os ns : List Object) (d : Diff)
    → let e = compare_group fmt os ns d in
      length e.objects_added + length d.objects_removed + length os
      ≡ length e.objects_removed + length d.objects_added + length ns
unfolding compare_group
compare_group-balance fmt [] ns d =
    omega (arith, length-append d.objects_added (map object_ref ns), map-length object_ref ns)
compare_group-balance fmt (o ∷ os) [] d = omega (
  arith,
  length-append d.objects_removed (map object_ref (o ∷ os)),
  map-length object_ref (o ∷ os),
)
compare_group-balance fmt (o ∷ os) (n ∷ ns) d = omega (
  arith,
  length-append d.objects_added (duplicates (drop (length (o ∷ os)) (n ∷ ns))),
  length-append d.objects_removed (duplicates (drop (length (n ∷ ns)) (o ∷ os))),
  map-length (λ x. object_ref x +++ " (duplicate)") (drop (length (o ∷ os)) (n ∷ ns)),
  map-length (λ x. object_ref x +++ " (duplicate)") (drop (length (n ∷ ns)) (o ∷ os)),
  length-drop (length (o ∷ os)) (n ∷ ns),
  length-drop (length (n ∷ ns)) (o ∷ os),
)

-- The number of objects under some keys.
held : Dict String (List Object) → List String → ℕ
held m ks = total (λ k. length (or_zero [] (lookup k m))) ks

compare_groups-balance :
    (fmt : Format) (old new : Dict String (List Object)) (ks : List String) (d : Diff)
    → let e = compare_groups fmt old new ks d in
      length e.objects_added + length d.objects_removed + held old ks
      ≡ length e.objects_removed + length d.objects_added + held new ks
unfolding compare_groups held
compare_groups-balance fmt old new [] d = omega arith
compare_groups-balance fmt old new (k ∷ ks) d =
    let os = or_zero [] (lookup k old) in
    let ns = or_zero [] (lookup k new) in
    omega (
      arith,
      compare_groups-balance fmt old new ks (compare_group fmt os ns d),
      compare_group-balance fmt os ns d,
    )

group-length :
    (k : String) (m : Dict String (List Object)) (os : List Object)
    → length (or_zero [] (lookup k (group m os)))
      ≡ length (or_zero [] (lookup k m)) + total (λ o. if object_key o == k then 1 else 0) os
unfolding group
group-length k m [] = omega arith
group-length k m (o ∷ os) =
    let held_now = or_zero [] (lookup (object_key o) m) ++ o ∷ [] in
    ground (
      arith,
      group-length k (insert (object_key o) held_now m) os,
      lookup-insert (object_key o) k held_now m,
      length-append (or_zero [] (lookup (object_key o) m)) (o ∷ []),
      eq_iff (object_key o) k,
    )

group-keys :
    (m : Dict String (List Object)) (os : List Object)
    → ((j : String) → Elem j (keys m) → Elem j (keys (group m os)))
      × All (λ o. Elem (object_key o) (keys (group m os))) os
unfolding group
group-keys m [] = (λ j n. n, tt)
group-keys m (o ∷ os) =
    let next = insert (object_key o) (or_zero [] (lookup (object_key o) m) ++ o ∷ []) m in
    let (kept, found) = group-keys next os in
    (
      λ j n. kept j (
          (keys-insert j (object_key o) (or_zero [] (lookup (object_key o) m) ++ o ∷ []) m).1
            (inl n)),
      (
        kept (object_key o) (
            (keys-insert (object_key o) (object_key o)
                (or_zero [] (lookup (object_key o) m) ++ o ∷ []) m).1
              (inr refl)),
        found,
      ),
    )

total-swap :
    (os : List Object) (ks : List String)
    → All (λ o. occurrences (object_key o) ks ≡ 1) os
    → total (λ k. total (λ o. if object_key o == k then 1 else 0) os) ks ≡ length os
unfolding occurrences
total-swap [] ks h = zeros ks
  where
    zeros : (ks : List String) → total (λ k. 0) ks ≡ 0
    zeros [] = refl
    zeros (k ∷ ks) = omega (arith, zeros ks)
total-swap (o ∷ os) ks (p, h) =
    total-add (λ k. if object_key o == k then 1 else 0)
      (λ k. total (λ x. if object_key x == k then 1 else 0) os) ks
    ∙ omega (arith, p, total-swap os ks h)
  where
    total-add :
        (f g : String → ℕ) (ks : List String) → total (λ k. f k + g k) ks ≡ total f ks + total g ks
    total-add f g [] = refl
    total-add f g (k ∷ ks) = omega (arith, total-add f g ks)

-- Each key of the two scans is visited once.
all_keys-occurrences :
    (old new : Dict String (List Object)) (j : String)
    → (Elem j (keys old) → occurrences j (all_keys old new) ≡ 1)
      × (Elem j (keys new) → occurrences j (all_keys old new) ≡ 1)
unfolding occurrences
all_keys-occurrences old new j =
    let set = add_names [] (keys old) in
    let (few, more, all) = occurrences-add_names j [] (keys old) (omega arith) in
    let (few', more', all') = occurrences-add_names j set (keys new) few in
    let sorted =
      sort_by-total str_lt (λ k. if j == k then 1 else 0) (keys (add_names set (keys new))) in
    (λ m. sorted ∙ omega (arith, all m, few', more'), λ m. sorted ∙ all' m)

held-total :
    (os : List Object) (ks : List String)
    → total (λ k. length (or_zero [] (lookup k (group [] os)))) ks
      ≡ total (λ k. total (λ o. if object_key o == k then 1 else 0) os) ks
unfolding held lookup
held-total os [] = refl
held-total os (k ∷ ks) = omega (arith, group-length k [] os, held-total os ks)

held-length :
    (os : List Object) (ks : List String)
    → All (λ o. occurrences (object_key o) ks ≡ 1) os
    → held (group [] os) ks ≡ length os
unfolding held
held-length os ks h = held-total os ks ∙ total-swap os ks h

compare_token-objects :
    (old new : Inventory) (d : Diff)
    → (length (compare_token old new d).objects_added ≡ length d.objects_added)
      × (length (compare_token old new d).objects_removed ≡ length d.objects_removed)
unfolding compare_token
compare_token-objects old new d = elim (Option-cases old.slot.token) [
  | inl p ↦ rw p (refl, refl)
  | inr (o, p) ↦ elim (Option-cases new.slot.token) [
    | inl q ↦ rw (p, q) (refl, refl)
    | inr (n, q) ↦ rw (p, q) (refl, refl)
  ]
]

-- The additions and the removals of a diff account for all objects: the old objects and those
-- added are as many as the new objects and those removed.
pub compare-balance :
    (fmt : Format) (old new : Inventory)
    → length (compare fmt old new).objects_added + length old.objects
      ≡ length (compare fmt old new).objects_removed + length new.objects
unfolding compare compare_objects compare_mechanisms
compare-balance fmt old new =
    let olds = group [] old.objects in
    let news = group [] new.objects in
    let ks = all_keys olds news in
    let start = compare_token old new (no_drift old.scanned_at new.scanned_at) in
    let (kept, found) = group-keys [] old.objects in
    let (kept', found') = group-keys [] new.objects in
    omega (
      arith,
      compare_groups-balance fmt olds news ks (compare_mechanisms old new start),
      held-length old.objects ks
          (All-map old.objects (λ o m. (all_keys-occurrences olds news (object_key o)).0 m) found),
      held-length new.objects ks
          (All-map new.objects (λ o m. (all_keys-occurrences olds news (object_key o)).1 m) found'),
      compare_token-objects old new (no_drift old.scanned_at new.scanned_at),
    )
