-- ===== src/Policy/Packs/Naming.antt =====
-- internal/cli/packs.go and internal/policy/policy.go: the names of the packs, and what is made of them.
use hsm_doctor.Base.{
  String, ◌≡◌, ◌≢◌, ◌↔◌, ◌⊎◌, inl, inr, refl, sym, ◌∙◌, Option, none, some, List, [], ◌∷◌, ◌==◌,
  eq_iff, arith, Bool-cases, Option-cases,
}
use hsm_doctor.Policy.Severity.{Scoring}
use hsm_doctor.Policy.Condition.{Config, PackMeta}
use hsm_doctor.Policy.Load.Packs.{all_rules, first_of_packs, merged_of}
use hsm_doctor.Policy.Packs.{source_name, base, ext, trim_suffix}

abbrev pub sources_of : List String → List Config → List String
sources_of (n ∷ ns) (c ∷ cs) = source_name c n ∷ sources_of ns cs
sources_of _ _ = []

-- The pack has this name in it.
abbrev pub HasName : Config → String → Type 0
HasName c name = (meta : PackMeta) × (c.pack ≡ some meta) × (meta.name ≡ name) × (name ≢ "")

-- A pack goes by the name in it, and where there is none by the name of its file, without the
-- folders and the extension.
abbrev pub GoesBy : String → Config → String → Type 0
GoesBy n c name =
    HasName c name
    ⊎ ((other : String) → ¬ (HasName c other)) × (name ≡ trim_suffix (ext n) (base n))

pub source_name-GoesBy_iff :
    (n : String) (c : Config) (name : String) → GoesBy n c name ↔ (name ≡ source_name c n)
unfolding source_name
source_name-GoesBy_iff n c name = elim (Option-cases c.pack) [
  | inl e ↦ (
    elim [ inl (meta, f, _, _) ↦ absurd cc | inr (_, q) ↦ rw (source_name, e) q ],
    λ q. inr (λ other (meta, f, _, _). cc, let q' = rw (source_name, e) at q in q'),
  )
  | inr (meta, e) ↦ elim (Bool-cases (meta.name == "")) [
    | inl f ↦ (
      elim [
        | inl (m, g, h, k) ↦
            let same : m ≡ meta = cc in absurd (k (ground (arith, eq_iff meta.name "")))
        | inr (_, q) ↦ rw (source_name, e, f) q
      ],
      λ q. inr (
        λ other (m, g, h, k). let same : m ≡ meta = cc in k (ground (arith, eq_iff meta.name "")),
        let q' = rw (source_name, e, f) at q in q',
      ),
    )
    | inr f ↦
        let filled : meta.name ≢ "" = λ z. ground (arith, eq_iff meta.name "") in
        (
          elim [
            | inl (m, g, h, k) ↦ let same : m ≡ meta = cc in rw (source_name, e, f) (ground arith)
            | inr (no_name, q) ↦ absurd (no_name meta.name (meta, e, refl, filled))
          ],
          λ q.
              let q' : name ≡ meta.name = rw (source_name, e, f) at q in
              inl (meta, e, sym q', λ z. filled (sym q' ∙ z)),
        )
  ]
]

-- The packs go by these names, one for each.
abbrev pub GoBy : List String → List Config → List String → Type 0
GoBy [] [] [] = Unit {0}
GoBy (n ∷ ns) (c ∷ cs) (x ∷ xs) = GoesBy n c x × GoBy ns cs xs
GoBy _ _ _ = ⊥

-- The scoring section of the first pack that has one.
abbrev pub first_scored : List Config → Option Scoring
first_scored [] = none
first_scored (c ∷ cs) = elim c.scoring [ none ↦ first_scored cs | some s ↦ some s ]

first_of_packs-some : (s : Scoring) (cs : List Config) → first_of_packs (some s) cs ≡ some s
first_of_packs-some s [] = refl
first_of_packs-some s (c ∷ cs) = first_of_packs-some s cs

first_of_packs-none : (cs : List Config) → first_of_packs none cs ≡ first_scored cs
first_of_packs-none [] = refl
first_of_packs-none (c ∷ cs) = elim (Option-cases c.scoring) [
  | inl e ↦ rw e (first_of_packs-none cs)
  | inr (s, e) ↦ rw e (first_of_packs-some s cs)
]

-- The rules of all packs, in their order.
abbrev pub joined_packs : List Config → Config
joined_packs cs = record { pack = none; rules = all_rules cs; scoring = first_scored cs }

pub merged_of-eq : (cs : List Config) → merged_of cs ≡ joined_packs cs
merged_of-eq cs = rw (first_of_packs-none cs) refl
