-- ===== src/Snapshot/Mechanisms.antt =====
-- internal/snapshot/diff.go: which mechanisms appeared and which went away.
use hsm_doctor.Base.{
  String, ◌≡◌, refl, ◌↔◌, ◌⊎◌, inl, inr, Bool, true, false, not, ◌||◌, List, [], ◌∷◌, ◌==◌, arith,
  eq_iff, any, keep, map, Elem, Bool-cases, Option-cases, ap, ◌∙◌,
}
use hsm_doctor.Base.Sort.{sort_by, sort_by-Any_iff}
use hsm_doctor.Base.Dict.{Dict, keys, lookup, insert, or_zero, string_eq, lookup-insert}
use hsm_doctor.Base.Text.{str_lt}
use hsm_doctor.Base.Clock.{Format}
use hsm_doctor.Inventory.{Inventory, Mechanism, Object}
use hsm_doctor.Policy.Evaluate.{advertises}
use hsm_doctor.Snapshot.{
  Diff, add_names, name_set, only_in, compare_token, compare_mechanisms, compare_group,
  compare_groups, compare_objects, all_keys, group, no_drift, compare,
}

keep-Elem_iff :
    {A : Type 0} (p : A → Bool) (a : A) (xs : List A)
    → Elem a (keep p xs) ↔ (Elem a xs × (p a ≡ true))
keep-Elem_iff p a [] = (λ n. absurd n, λ h. absurd (h.0))
keep-Elem_iff p a (x ∷ xs) =
    let (to, from) = keep-Elem_iff p a xs in
    elim (Bool-cases (p x)) [
      | inl kept ↦ rw kept (
        elim [ inl e ↦ (inl e, rw e kept) | inr m ↦ let (n, f) = to m in (inr n, f) ],
        λ (m, f). elim m [ inl e ↦ inl e | inr n ↦ inr (from (n, f)) ],
      )
      | inr dropped ↦ rw dropped (
        λ m. let (n, f) = to m in (inr n, f),
        λ (m, f). elim m [ inl e ↦ cc | inr n ↦ from (n, f) ],
      )
    ]

pub keys-insert :
    {V : Type 0} (n k : String) (v : V) (m : Dict String V)
    → Elem n (keys (insert k v m)) ↔ (Elem n (keys m) ⊎ (n ≡ k))
unfolding insert
keys-insert n k v [] =
    (elim [ inl e ↦ inr e | inr b ↦ absurd b ], elim [ inl b ↦ absurd b | inr e ↦ inl e ])
keys-insert n k v ((j, w) ∷ m) =
    let (to, from) = keys-insert n k v m in
    elim (Bool-cases (j == k)) [
      | inl same ↦
          let e : j ≡ k = (eq_iff j k).0 same in
          rw same (
            elim [ inl p ↦ inr p | inr m ↦ inl (inr m) ],
            elim [ inl h ↦ elim h [ inl p ↦ inl cc | inr m ↦ inr m ] | inr p ↦ inl p ],
          )
      | inr other ↦ rw other (
        elim [ inl p ↦ inl (inl p) | inr m ↦ elim (to m) [ inl a ↦ inl (inr a) | inr b ↦ inr b ] ],
        elim [
          | inl h ↦ elim h [ inl p ↦ inl p | inr a ↦ inr (from (inl a)) ]
          | inr b ↦ inr (from (inr b))
        ],
      )
    ]

pub keys-add_names :
    (n : String) (s : Dict String Bool) (ns : List String)
    → Elem n (keys (add_names s ns)) ↔ (Elem n (keys s) ⊎ Elem n ns)
unfolding add_names
keys-add_names n s [] = (λ m. inl m, elim [ inl m ↦ m | inr b ↦ absurd b ])
keys-add_names n s (x ∷ ns) =
    let (to, from) = keys-add_names n (insert x true s) ns in
    let (in_to, in_from) = keys-insert n x true s in
    (
      λ m. elim (to m) [
        | inl a ↦ elim (in_to a) [ inl b ↦ inl b | inr e ↦ inr (inl e) ]
        | inr b ↦ inr (inr b)
      ],
      elim [
        | inl b ↦ from (inl (in_from (inl b)))
        | inr h ↦ elim h [ inl e ↦ from (inl (in_from (inr e))) | inr b ↦ from (inr b) ]
      ],
    )

lookup-add_names :
    (n : String) (s : Dict String Bool) (ns : List String)
    → or_zero false (lookup n (add_names s ns))
      ≡ (or_zero false (lookup n s) || any (λ x. x == n) ns)
unfolding add_names
lookup-add_names n s [] = ground arith
lookup-add_names n s (x ∷ ns) =
    ground (arith, lookup-add_names n (insert x true s) ns, lookup-insert x n true s)

names-advertises :
    (n : String) (ms : List Mechanism)
    → (any (λ x. x == n) (map (λ m. m.name) ms) ≡ any (λ m. m.name == n) ms)
      × (Elem n (map (λ m. m.name) ms) ↔ (any (λ m. m.name == n) ms ≡ true))
names-advertises n [] = ground arith
names-advertises n (m ∷ ms) =
    let (same, (to, from)) = names-advertises n ms in
    (rw same refl, ground (arith, to, from, eq_iff m.name n))

name_set-lookup :
    (n : String) (inv : Inventory) → or_zero false (lookup n (name_set inv)) ≡ advertises inv n
unfolding advertises lookup
name_set-lookup n inv = ground (
  arith,
  lookup-add_names n [] (map (λ m. m.name) inv.mechanisms),
  names-advertises n inv.mechanisms,
)

name_set-keys :
    (n : String) (inv : Inventory) → Elem n (keys (name_set inv)) ↔ (advertises inv n ≡ true)
unfolding advertises
name_set-keys n inv = ground (
  arith,
  keys-add_names n [] (map (λ m. m.name) inv.mechanisms),
  names-advertises n inv.mechanisms,
)

pub only_in-Elem_iff :
    (n : String) (new old : Inventory)
    → Elem n (only_in (name_set new) (name_set old))
      ↔ ((advertises new n ≡ true) × (advertises old n ≡ false))
unfolding only_in
only_in-Elem_iff n new old = ground (
  arith,
  keep-Elem_iff (λ x. not (or_zero false (lookup x (name_set old)))) n (keys (name_set new)),
  name_set-keys n new,
  name_set-lookup n old,
)

abbrev mechanisms : Diff → List String × List String
mechanisms d = (d.mechanisms_added, d.mechanisms_removed)

compare_group-mechanisms :
    (fmt : Format) (os ns : List Object) (d : Diff)
    → mechanisms (compare_group fmt os ns d) ≡ mechanisms d
unfolding compare_group
compare_group-mechanisms fmt [] ns d = refl
compare_group-mechanisms fmt (o ∷ os) [] d = refl
compare_group-mechanisms fmt (o ∷ os) (n ∷ ns) d = refl

compare_groups-mechanisms :
    (fmt : Format) (old new : Dict String (List Object)) (ks : List String) (d : Diff)
    → mechanisms (compare_groups fmt old new ks d) ≡ mechanisms d
unfolding compare_groups
compare_groups-mechanisms fmt old new [] d = refl
compare_groups-mechanisms fmt old new (k ∷ ks) d =
    let os = or_zero [] (lookup k old) in
    let ns = or_zero [] (lookup k new) in
    compare_groups-mechanisms fmt old new ks (compare_group fmt os ns d)
    ∙ compare_group-mechanisms fmt os ns d

compare_token-mechanisms :
    (old new : Inventory) (d : Diff) → mechanisms (compare_token old new d) ≡ mechanisms d
unfolding compare_token
compare_token-mechanisms old new d = elim (Option-cases old.slot.token) [
  | inl p ↦ rw p refl
  | inr (o, p) ↦ elim (Option-cases new.slot.token) [
    | inl q ↦ rw (p, q) refl
    | inr (n, q) ↦ rw (p, q) refl
  ]
]

compare-mechanisms :
    (fmt : Format) (old new : Inventory)
    → mechanisms (compare fmt old new) ≡ (
      sort_by str_lt (only_in (name_set new) (name_set old)),
      sort_by str_lt (only_in (name_set old) (name_set new)),
    )
unfolding compare compare_objects compare_mechanisms
compare-mechanisms fmt old new =
    let start = no_drift old.scanned_at new.scanned_at in
    let token = compare_token-mechanisms old new start in
    let olds = group [] old.objects in
    let news = group [] new.objects in
    compare_groups-mechanisms fmt olds news (all_keys olds news)
      (compare_mechanisms old new (compare_token old new start))
    ∙ rw (ap (λ p. p.0) token, ap (λ p. p.1) token) refl

-- A mechanism is reported as added exactly when the new scan advertises it and the old one does
-- not, and as removed exactly when the old scan does and the new one does not.
pub compare-mechanisms_iff :
    (fmt : Format) (old new : Inventory) (n : String)
    → (Elem n (compare fmt old new).mechanisms_added
        ↔ ((advertises new n ≡ true) × (advertises old n ≡ false)))
      × (Elem n (compare fmt old new).mechanisms_removed
          ↔ ((advertises old n ≡ true) × (advertises new n ≡ false)))
compare-mechanisms_iff fmt old new n =
    let e = compare-mechanisms fmt old new in
    rw (ap (λ p. p.0) e, ap (λ p. p.1) e)
      (
        iff_trans (sort_by-Any_iff str_lt (λ x. n ≡ x) (only_in (name_set new) (name_set old)))
            (only_in-Elem_iff n new old),
        iff_trans (sort_by-Any_iff str_lt (λ x. n ≡ x) (only_in (name_set old) (name_set new)))
            (only_in-Elem_iff n old new),
      )
  where
    iff_trans : {A B C : Type 0} → A ↔ B → B ↔ C → A ↔ C
    iff_trans (f, g) (h, k) = (λ a. h (f a), λ c. g (k c))
