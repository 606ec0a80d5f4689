-- ===== src/Kmip/Collect/Versions.antt =====
-- internal/kmip/collect.go: the protocol version that `discoverVersions` settles on.
use mathlib.Core.Path.{subst}
use hsm_doctor.Base.{
  ◌≡◌, refl, sym, ◌⊎◌, inl, inr, Bool, true, false, List, [], ◌∷◌, ◌&&◌, arith, All, Elem,
  Bool-cases,
}
use hsm_doctor.Base.Int.{ℤ, pos, ◌≤ℤ◌, eq_ℤ, leb_ℤ, ltb_ℤ, eq_ℤ_iff}
use hsm_doctor.Kmip.Collect.{
  protocol_version, node, Items, nil, cons, version_of, consider, best_version, negotiate,
}

-- The versions that the server lists.
abbrev pub offers : Items → List (ℤ × ℤ)
offers nil = []
offers (cons (node protocol_version n text date parts) rest) =
    version_of (pos 0, pos 0) parts ∷ offers rest
offers (cons (node tag n text date parts) rest) = offers rest

-- The versions that the client can speak: 1.4 and the older versions 1.x.
abbrev pub speaks : ℤ × ℤ → Bool
speaks (major, minor) = eq_ℤ major (pos 1) && leb_ℤ minor (pos 4)

-- A version that the client cannot speak, or that is not above another.
abbrev pub NotAbove : ℤ × ℤ → ℤ × ℤ → Type 0
NotAbove (major, minor) v = (speaks v ≡ false) ⊎ (v.1 ≤ℤ minor)

abbrev fold : ℤ × ℤ → List (ℤ × ℤ) → ℤ × ℤ
fold best [] = best
fold best (v ∷ vs) = fold (consider best v) vs

best_version-fold :
    (best : ℤ × ℤ) (items : Items) → best_version best items ≡ fold best (offers items)
unfolding best_version
best_version-fold best nil = refl
best_version-fold best (cons (node protocol_version n text date parts) rest) =
    best_version-fold (consider best (version_of (pos 0, pos 0) parts)) rest
best_version-fold best (cons (node _ n text date parts) rest) = best_version-fold best rest

-- A best version that the client can speak is replaced by a higher one only.
record IsBest (best r : ℤ × ℤ) (vs : List (ℤ × ℤ)) : Type 0 where
  chosen : (r ≡ best) ⊎ Elem r vs
  major : r.0 ≡ pos 1
  minor : r.1 ≤ℤ pos 4
  grows : best.1 ≤ℤ r.1
  highest : All (NotAbove r) vs

abbrev Raises : ℤ → ℤ → ℤ → Type 0
Raises minor ma mi =
    (consider (pos 1, minor) (ma, mi) ≡ (pos 1, mi)) × (ma ≡ pos 1) × (mi ≤ℤ pos 4) × (minor ≤ℤ mi)

abbrev Stays : ℤ → ℤ → ℤ → Type 0
Stays minor ma mi =
    (consider (pos 1, minor) (ma, mi) ≡ (pos 1, minor))
    × ((speaks (ma, mi) ≡ false) ⊎ (mi ≤ℤ minor))

consider_cases : (minor ma mi : ℤ) → Raises minor ma mi ⊎ Stays minor ma mi
unfolding consider
consider_cases minor ma mi = elim (Bool-cases (speaks (ma, mi) && ltb_ℤ minor mi)) [
  | inl up ↦ inl (ground (arith, eq_ℤ_iff ma (pos 1)))
  | inr stay ↦ inr (ground (arith, eq_ℤ_iff ma (pos 1)))
]

not_above :
    (minor : ℤ) (r v : ℤ × ℤ) → minor ≤ℤ r.1 → (speaks v ≡ false) ⊎ (v.1 ≤ℤ minor) → NotAbove r v
not_above minor r v g (inl n) = inl n
not_above minor r v g (inr l) = inr (omega arith)

fold-IsBest :
    (minor : ℤ) (vs : List (ℤ × ℤ))
    → minor ≤ℤ pos 4
    → IsBest (pos 1, minor) (fold (pos 1, minor) vs) vs
fold-IsBest minor [] h = record {
  chosen = inl refl;
  major = refl;
  minor = h;
  grows = omega arith;
  highest = tt;
}
fold-IsBest minor ((ma, mi) ∷ vs) h = elim (consider_cases minor ma mi) [
  | inl (e, one, four, above) ↦
      let ih = fold-IsBest mi vs four in
      rw e (record {
        chosen = inr (elim ih.chosen [ inl q ↦ inl (ground arith) | inr m ↦ inr m ]);
        major = ih.major;
        minor = ih.minor;
        grows = omega (arith, ih.grows);
        highest = (inr ih.grows, ih.highest);
      })
  | inr (e, low) ↦
      let ih = fold-IsBest minor vs h in
      rw e (record {
        chosen = elim ih.chosen [ inl q ↦ inl q | inr m ↦ inr (inr m) ];
        major = ih.major;
        minor = ih.minor;
        grows = ih.grows;
        highest = (not_above minor (fold (pos 1, minor) vs) (ma, mi) ih.grows low, ih.highest);
      })
]

-- Before the first version that it can speak, the loop keeps 0.0.
abbrev Settled : ℤ × ℤ → List (ℤ × ℤ) → Type 0
Settled r vs =
    (r ≡ (pos 0, pos 0)) × All (λ v. speaks v ≡ false) vs
    ⊎ Elem r vs × (speaks r ≡ true) × All (NotAbove r) vs

start_cases :
    (ma mi : ℤ)
    → (consider (pos 0, pos 0) (ma, mi) ≡ (pos 1, mi)) × (ma ≡ pos 1) × (mi ≤ℤ pos 4)
      ⊎ (consider (pos 0, pos 0) (ma, mi) ≡ (pos 0, pos 0)) × (speaks (ma, mi) ≡ false)
unfolding consider
start_cases ma mi = elim (Bool-cases (speaks (ma, mi))) [
  | inl up ↦ inl (ground (arith, eq_ℤ_iff ma (pos 1)))
  | inr stay ↦ inr (ground (arith, eq_ℤ_iff ma (pos 1)))
]

fold-Settled : (vs : List (ℤ × ℤ)) → Settled (fold (pos 0, pos 0) vs) vs
fold-Settled [] = inl (refl, tt)
fold-Settled ((ma, mi) ∷ vs) =
    let goal = λ (b : ℤ × ℤ). Settled (fold b vs) ((ma, mi) ∷ vs) in
    elim (start_cases ma mi) [
      | inl (e, one, four) ↦
          let ih = fold-IsBest mi vs four in
          let chosen : Elem (fold (pos 1, mi) vs) ((ma, mi) ∷ vs) = elim ih.chosen [
            | inl q ↦ inl (ground arith)
            | inr m ↦ inr m
          ] in
          subst goal (sym e)
            (inr (chosen, ground (arith, ih.major, ih.minor), (inr ih.grows, ih.highest)))
      | inr (e, no_speak) ↦ subst goal (sym e) (elim (fold-Settled vs) [
        | inl (z, all_low) ↦ inl (z, (no_speak, all_low))
        | inr (m, s, h) ↦ inr (inr m, s, (inl no_speak, h))
      ])
    ]

best_version-Settled :
    (payload : Items) → Settled (best_version (pos 0, pos 0) payload) (offers payload)
best_version-Settled payload =
    subst (λ r. Settled r (offers payload)) (sym (best_version-fold (pos 0, pos 0) payload))
      (fold-Settled (offers payload))

negotiate-none :
    (current : ℤ × ℤ) (payload : Items)
    → best_version (pos 0, pos 0) payload ≡ (pos 0, pos 0)
    → negotiate current payload ≡ current
unfolding negotiate
negotiate-none current payload e = rw e

negotiate-some :
    (current : ℤ × ℤ) (payload : Items)
    → speaks (best_version (pos 0, pos 0) payload) ≡ true
    → best_version (pos 0, pos 0) payload ≡ negotiate current payload
unfolding negotiate
negotiate-some current payload e = ground arith

-- If the server lists no version from 1.0 to 1.4 the client keeps its own; otherwise it settles on
-- one that the server lists and that it can speak, and none of that kind in the list is higher.
pub negotiate_cases :
    (current : ℤ × ℤ) (payload : Items)
    → (negotiate current payload ≡ current) × All (λ v. speaks v ≡ false) (offers payload)
      ⊎ Elem (negotiate current payload) (offers payload)
        × (speaks (negotiate current payload) ≡ true)
        × All (NotAbove (negotiate current payload)) (offers payload)
negotiate_cases current payload = elim (best_version-Settled payload) [
  | inl (z, low) ↦ inl (negotiate-none current payload z, low)
  | inr (m, s, h) ↦ inr (
      subst (λ r. Elem r (offers payload) × (speaks r ≡ true) × All (NotAbove r) (offers payload))
        (negotiate-some current payload s) (m, s, h))
]
