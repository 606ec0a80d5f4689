-- ===== src/SharedKeys/Laws.antt =====
-- internal/sharedkeys/sharedkeys.go: which fingerprints `Detect` reports.
use hsm_doctor.Base.{
  ℕ, ◌≤◌, String, ◌≡◌, refl, sym, ◌∙◌, ◌↔◌, ◌≢◌, inl, inr, Bool, true, false, List, [], ◌∷◌, ◌==◌,
  arith, eq_iff, ltb, All, total, Bool-cases, if◌then◌else◌, length,
}
use mathlib.Core.Path.{subst}
use hsm_doctor.Base.Int.{ℤ, eq_ℤ_iff}
use hsm_doctor.Base.Sort.{sort_by-total}
use hsm_doctor.Base.Dict.{Dict, keys, lookup, string_eq, int_eq}
use hsm_doctor.Base.Dict.Unique.{IsUnique}
use hsm_doctor.SharedKeys.{Source, SharedKey, Agg, note_sources, shared, wider, detect}
use hsm_doctor.SharedKeys.Groups.{held_by, agg, has, groups-has, groups-IsProper}

-- How many of the reported keys have this fingerprint.
abbrev pub reported : String → List SharedKey → ℕ
reported fp ks = total (λ k. if k.fingerprint == fp then 1 else 0) ks

shared-absent :
    (fp : String) (m : Dict String Agg) → All (λ j. j ≢ fp) (keys m) → reported fp (shared m) ≡ 0
unfolding shared
shared-absent fp [] h = refl
shared-absent fp ((j, g) ∷ m) (p, h) = ground (arith, shared-absent fp m h, p, eq_iff j fp)

shared-reported :
    (fp : String) (m : Dict String Agg)
    → IsUnique m
    → reported fp (shared m) ≡ (if ltb (length (agg fp m).hsms) 2 then 0 else 1)
unfolding shared lookup
shared-reported fp [] u = ground arith
shared-reported fp ((j, g) ∷ m) (h, u) = elim (Bool-cases (j == fp)) [
  | inl same ↦
      let e : j ≡ fp = (eq_iff j fp).0 same in
      let gone = shared-absent fp m (subst (λ x. All (λ i. i ≢ x) (keys m)) e h) in
      rw same (ground (arith, same, gone))
  | inr other ↦ rw other (ground (arith, other, shared-reported fp m u))
]

-- A set of HSMs has two members or more exactly when two different ones are in it.
two_members :
    (d : Dict ℤ Bool)
    → IsUnique d
    → (ltb (length d) 2 ≡ false)
      ↔ ((a : ℤ) × (b : ℤ) × (a ≢ b) × (has a d ≡ true) × (has b d ≡ true))
unfolding lookup
two_members [] u = ground arith
two_members ((j, v) ∷ []) u = (
  λ h. absurd (ground arith),
  λ (a, b, d, p, q). absurd (d (ground (arith, p, q, eq_ℤ_iff j a, eq_ℤ_iff j b))),
)
two_members ((j, v) ∷ (k, w) ∷ d) ((p, h), u) = (
  λ _. (
    j,
    k,
    λ e. p (sym e),
    ground (arith, eq_ℤ_iff j j),
    ground (arith, eq_ℤ_iff k k, eq_ℤ_iff j k),
  ),
  λ _. ground arith,
)

-- A fingerprint is reported once when two HSMs with different ids hold a private key with it, and
-- is not reported otherwise.
pub detect-reported :
    (fp : String) (ss : List Source)
    → (reported fp (detect ss) ≤ 1)
      × ((reported fp (detect ss) ≡ 1)
          ↔ ((a : ℤ) × (b : ℤ) × (a ≢ b) × (held_by fp ss a ≡ true) × (held_by fp ss b ≡ true)))
unfolding detect
detect-reported fp ss =
    let m = note_sources [] ss in
    let proper = groups-IsProper ss in
    let sorted = sort_by-total wider (λ k. if k.fingerprint == fp then 1 else 0) (shared m) in
    let listed = shared-reported fp m proper.groups in
    let (to, from) = two_members (agg fp m).hsms (proper.hsms fp) in
    (
      ground (arith, sorted, listed),
      (
        λ one.
            let (a, b, d, p, q) = to (ground (arith, one, sorted, listed)) in
            (a, b, d, sym (groups-has fp a ss) ∙ p, sym (groups-has fp b ss) ∙ q),
        λ (a, b, d, p, q).
            let two = from (a, b, d, groups-has fp a ss ∙ p, groups-has fp b ss ∙ q) in
            ground (arith, sorted, listed, two),
      ),
    )
