-- ===== src/SharedKeys/Groups.antt =====
-- internal/sharedkeys/sharedkeys.go: what the groups hold after the loops of `Detect`.
use hsm_doctor.Base.{
  String, ◌≡◌, refl, inl, inr, Bool, true, false, not, ◌&&◌, ◌||◌, none, some, List, [], ◌∷◌, ◌==◌,
  arith, eq_iff, any, Bool-cases, Option-cases, if◌then◌else◌, ◌∙◌, ap,
}
use hsm_doctor.Base.Int.{ℤ, eq_ℤ}
use hsm_doctor.Base.Dict.{Dict, lookup, or_zero, string_eq, int_eq, lookup-insert}
use hsm_doctor.Base.Dict.Unique.{IsUnique, insert-IsUnique}
use hsm_doctor.Inventory.{Object, class_private_key}
use hsm_doctor.SharedKeys.{
  Source, Agg, no_agg, is_candidate, sighted, note, note_objects, note_sources,
}

-- The object is a private key with this fingerprint, which is not empty.
abbrev pub is_copy : String → Object → Bool
is_copy fp o = is_candidate o && o.public_key_fingerprint == fp

abbrev pub holds : String → Source → Bool
holds fp s = elim s.inventory [ none ↦ false | some inv ↦ any (is_copy fp) inv.objects ]

-- Some source with this id holds the key.
abbrev pub held_by : String → List Source → ℤ → Bool
held_by fp ss id = any (λ s. eq_ℤ s.hsm_id id && holds fp s) ss

abbrev pub agg : String → Dict String Agg → Agg
agg fp m = or_zero no_agg (lookup fp m)

abbrev pub has : ℤ → Dict ℤ Bool → Bool
has id d = elim (lookup id d) [ none ↦ false | some b ↦ true ]

agg-note :
    (fp : String) (s : Source) (m : Dict String Agg) (o : Object)
    → agg fp (note s m o) ≡ (if is_copy fp o then sighted s o (agg fp m) else agg fp m)
unfolding note
agg-note fp s m o =
    let k = o.public_key_fingerprint in
    let next = sighted s o (agg k m) in
    elim (Bool-cases (not (o.class == class_private_key) || k == "")) [
      | inl skipped ↦
          let no_copy : is_copy fp o ≡ false = ground (arith, skipped) in rw (skipped, no_copy) refl
      | inr noted ↦ rw noted (elim (Bool-cases (k == fp)) [
        | inl same ↦
            let copy : is_copy fp o ≡ true = ground (arith, noted, same) in
            let e : k ≡ fp = (eq_iff k fp).0 same in
            rw (copy, lookup-insert k fp next m, same) (ap (λ x. sighted s o (agg x m)) e)
        | inr other ↦
            let no_copy : is_copy fp o ≡ false = ground (arith, other) in
            rw (no_copy, lookup-insert k fp next m, other) refl
      ])
    ]

-- Keys are all different, in the groups and in each set of HSMs.
pub record IsProper (m : Dict String Agg) : Type 0 where
  pub groups : IsUnique m
  pub hsms : (fp : String) → IsUnique (agg fp m).hsms

note-hsms :
    (fp : String) (s : Source) (m : Dict String Agg) (o : Object)
    → IsUnique (agg fp m).hsms
    → IsUnique (agg fp (note s m o)).hsms
unfolding sighted
note-hsms fp s m o u = rw (agg-note fp s m o) (elim (Bool-cases (is_copy fp o)) [
  | inl copy ↦ rw copy (insert-IsUnique s.hsm_id true (agg fp m).hsms u)
  | inr no_copy ↦ rw no_copy u
])

note-IsProper : (s : Source) (m : Dict String Agg) (o : Object) → IsProper m → IsProper (note s m o)
unfolding note
note-IsProper s m o p = record {
  groups =
      elim (Bool-cases (not (o.class == class_private_key) || o.public_key_fingerprint == "")) [
        | inl skipped ↦ rw skipped p.groups
        | inr noted ↦ rw noted (
            insert-IsUnique o.public_key_fingerprint (sighted s o (agg o.public_key_fingerprint m))
              m p.groups)
      ];
  hsms = λ fp. note-hsms fp s m o (p.hsms fp);
}

note-has :
    (fp : String) (id : ℤ) (s : Source) (m : Dict String Agg) (o : Object)
    → has id (agg fp (note s m o)).hsms
      ≡ (has id (agg fp m).hsms || (eq_ℤ s.hsm_id id && is_copy fp o))
unfolding sighted
note-has fp id s m o = rw (agg-note fp s m o) (elim (Bool-cases (is_copy fp o)) [
  | inl c ↦ rw c (ground (arith, lookup-insert s.hsm_id id true (agg fp m).hsms))
  | inr c ↦ rw c (ground arith)
])

note_objects-has :
    (fp : String) (id : ℤ) (s : Source) (m : Dict String Agg) (os : List Object)
    → has id (agg fp (note_objects s m os)).hsms
      ≡ (has id (agg fp m).hsms || (eq_ℤ s.hsm_id id && any (is_copy fp) os))
unfolding note_objects
note_objects-has fp id s m [] = ground arith
note_objects-has fp id s m (o ∷ os) =
    note_objects-has fp id s (note s m o) os ∙ rw (note-has fp id s m o) (ground arith)

note_objects-IsProper :
    (s : Source) (m : Dict String Agg) (os : List Object)
    → IsProper m
    → IsProper (note_objects s m os)
unfolding note_objects
note_objects-IsProper s m [] p = p
note_objects-IsProper s m (o ∷ os) p =
    note_objects-IsProper s (note s m o) os (note-IsProper s m o p)

note_source : Dict String Agg → Source → Dict String Agg
note_source m s = elim s.inventory [ none ↦ m | some inv ↦ note_objects s m inv.objects ]

note_source-has :
    (fp : String) (id : ℤ) (m : Dict String Agg) (s : Source)
    → has id (agg fp (note_source m s)).hsms
      ≡ (has id (agg fp m).hsms || (eq_ℤ s.hsm_id id && holds fp s))
unfolding note_source note_objects note sighted
note_source-has fp id m s = elim (Option-cases s.inventory) [
  | inl p ↦ rw p (ground arith)
  | inr (inv, p) ↦ rw p (note_objects-has fp id s m inv.objects)
]

note_source-IsProper : (m : Dict String Agg) (s : Source) → IsProper m → IsProper (note_source m s)
unfolding note_source note_objects note sighted
note_source-IsProper m s h = elim (Option-cases s.inventory) [
  | inl p ↦ rw p h
  | inr (inv, p) ↦ rw p (note_objects-IsProper s m inv.objects h)
]

note_sources-has :
    (fp : String) (id : ℤ) (m : Dict String Agg) (ss : List Source)
    → has id (agg fp (note_sources m ss)).hsms ≡ (has id (agg fp m).hsms || held_by fp ss id)
unfolding note_sources note_source
note_sources-has fp id m [] = ground arith
note_sources-has fp id m (s ∷ ss) =
    ground (arith, note_sources-has fp id (note_source m s) ss, note_source-has fp id m s)

note_sources-IsProper :
    (m : Dict String Agg) (ss : List Source) → IsProper m → IsProper (note_sources m ss)
unfolding note_sources note_source
note_sources-IsProper m [] h = h
note_sources-IsProper m (s ∷ ss) h =
    note_sources-IsProper (note_source m s) ss (note_source-IsProper m s h)

-- After the loops, an HSM is in the set of a fingerprint exactly when it holds the key.
pub groups-has :
    (fp : String) (id : ℤ) (ss : List Source)
    → has id (agg fp (note_sources [] ss)).hsms ≡ held_by fp ss id
unfolding lookup
groups-has fp id ss = note_sources-has fp id [] ss

pub groups-IsProper : (ss : List Source) → IsProper (note_sources [] ss)
unfolding lookup
groups-IsProper ss = note_sources-IsProper [] ss (record { groups = tt; hsms = λ fp. tt })
