-- ===== src/Advisory/Loading.antt =====
-- internal/advisory/advisory.go: which feeds `Load` accepts.
use hsm_doctor.Base.{◌≡◌, ◌≢◌, ◌↔◌, ◌⊎◌, true, none, List, [], ◌∷◌, All, All-map, eq_iff, arith}
use hsm_doctor.Base.Loading.{IsDistinct, first_error-none_iff}
use hsm_doctor.Policy.Severity.{valid}
use hsm_doctor.Advisory.{Advisory, Feed, fault, loader, load_error}

-- What every advisory must have.
pub record IsWellFormed (a : Advisory) : Type 0 where
  pub has_id : a.id ≢ ""
  pub has_title : a.title ≢ ""
  pub is_known : valid a.severity ≡ true
  pub has_component : (a.match_on.component ≡ "firmware") ⊎ (a.match_on.component ≡ "library")
  pub has_fix : a.match_on.fixed_in ≢ ""

fault_iff : (a : Advisory) → ((a.id ≢ "") × (fault a ≡ none)) ↔ IsWellFormed a
unfolding fault
fault_iff a = ground (
  arith,
  eq_iff a.title "",
  eq_iff a.match_on.component "firmware",
  eq_iff a.match_on.component "library",
  eq_iff a.match_on.fixed_in "",
)

abbrev pub DistinctIds : List Advisory → Type 0
DistinctIds [] = Unit
DistinctIds (a ∷ rest) = All (λ b. b.id ≢ a.id) rest × DistinctIds rest

same_ids : (l : List Advisory) → IsDistinct loader l ↔ DistinctIds l
unfolding loader
same_ids [] = (λ h. h, λ h. h)
same_ids (a ∷ l) = ground (arith, same_ids l)

-- A decoded feed is accepted exactly when each advisory has an id, a title, one of the five
-- severities, one of the two components and a version that fixes it, and no two share an id.
pub load_iff :
    (f : Feed) → (load_error f ≡ none) ↔ (All IsWellFormed f.advisories × DistinctIds f.advisories)
unfolding load_error loader
load_iff f =
    let (to, from) = first_error-none_iff loader f.advisories in
    (
      λ e.
          let (h, d) = to e in
          (All-map f.advisories (λ a. (fault_iff a).0) h, (same_ids f.advisories).0 d),
      λ (h, d). from (All-map f.advisories (λ a. (fault_iff a).1) h, (same_ids f.advisories).1 d),
    )
