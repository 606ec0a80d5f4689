-- ===== src/Policy/Packs/Choosing.antt =====
-- internal/cli/packs.go: which packs are chosen, and what becomes of them.
use mathlib.Core.Path.{subst}
use hsm_doctor.Base.{String, ◌≡◌, ◌≢◌, ◌↔◌, refl, ap, sym, ◌∙◌, Option, List, [], ◌∷◌}
use hsm_doctor.Base.Fallible.{Fallible}
use hsm_doctor.Policy.Condition.{Config}
use hsm_doctor.Policy.Load.{merge}
use hsm_doctor.Policy.Load.Ids.{IsDistinct}
use hsm_doctor.Policy.Load.Packs.{all_rules, merge_iff}
use hsm_doctor.Policy.Packs.{
  resolved, >>=-eq-resolved, source_name, of_outcome, load_pack, load_packs, resolve_rule_config,
}
use hsm_doctor.Policy.Packs.Naming.{
  sources_of, GoBy, source_name-GoesBy_iff, joined_packs, merged_of-eq,
}
use hsm_doctor.Policy.Packs.Texts.{IsPack, load_pack_iff, of_outcome-eq-resolved}

module _ (read_file : String → Option String) (embedded : String → Option String)
    (decode : String → Fallible Config) (default_rules : String) where
  -- Each name is that of a pack.
  pub data Loads : List String → List Config → Type 0 where
    nothing : Loads [] []
    one_more :
        {n : String} {c : Config} {ns : List String} {cs : List Config}
        → IsPack read_file embedded decode default_rules n c
        → Loads ns cs
        → Loads (n ∷ ns) (c ∷ cs)

  load_packs-eq :
      {ns : List String} {cs : List Config}
      → Loads ns cs
      → load_packs read_file embedded decode default_rules ns ≡ resolved (cs, sources_of ns cs)
  unfolding load_packs
  load_packs-eq nothing = refl
  load_packs-eq (one_more {n} {c} h l) =
      rw ((load_pack_iff read_file embedded decode default_rules n c).1 h, load_packs-eq l)

  load_packs-Loads :
      (ns : List String) {x : List Config × List String}
      → load_packs read_file embedded decode default_rules ns ≡ resolved x
      → Loads ns x.0
  unfolding load_packs
  load_packs-Loads [] {x} e =
      let e' : ([], []) ≡ x = cc in
      subst (λ (y : List Config × List String). Loads [] y.0) e' nothing
  load_packs-Loads (n ∷ ns) {x} e =
      let (c, h, rest) =
        >>=-eq-resolved (load_pack read_file embedded decode default_rules n) _ e in
      let (y, l, last) =
        >>=-eq-resolved (load_packs read_file embedded decode default_rules ns) _ rest in
      let e' : (c ∷ y.0, source_name c n ∷ y.1) ≡ x = cc in
      subst (λ (z : List Config × List String). Loads (n ∷ ns) z.0) e'
        (one_more ((load_pack_iff read_file embedded decode default_rules n c).0 h)
          (load_packs-Loads ns l))

  sources_of-GoBy_iff :
      {ns : List String} {cs : List Config} (names : List String)
      → Loads ns cs
      → GoBy ns cs names ↔ (names ≡ sources_of ns cs)
  sources_of-GoBy_iff [] nothing = (λ g. refl, λ e. tt)
  sources_of-GoBy_iff (x ∷ xs) nothing = (λ g. absurd g, λ e. cc)
  sources_of-GoBy_iff [] (one_more h l) = (λ g. absurd g, λ e. cc)
  sources_of-GoBy_iff (x ∷ xs) (one_more {n} {c} {ns} {cs} h l) =
      let (to, from) = source_name-GoesBy_iff n c x in
      let (to', from') = sources_of-GoBy_iff xs l in
      (λ (g, gs). rw (to g, to' gs) refl, λ e. (from cc, from' cc))

  -- With packs and no rules file, rules are chosen exactly when every name is that of a pack with
  -- acceptable rules, found as the default rules, among the embedded packs or else as a file, and the
  -- packs have rules and do not share an id. The result has the rules of all packs, in the order of
  -- the flags, and the scoring section of the first pack that has one; it is listed under the name
  -- that each pack has in it, or where there is none under that of its file.
  pub resolve_packs_iff :
      (n : String) (ns : List String) (cfg : Config) (names : List String)
      → (resolve_rule_config read_file embedded decode default_rules "" (n ∷ ns)
          ≡ resolved (cfg, names))
        ↔ ((cs : List Config) × Loads (n ∷ ns) cs
            × (all_rules cs ≢ [])
            × IsDistinct (all_rules cs)
            × (cfg ≡ joined_packs cs)
            × GoBy (n ∷ ns) cs names)
  unfolding resolve_rule_config
  resolve_packs_iff n ns cfg names = (
    λ e.
        let (y, l, rest) =
          >>=-eq-resolved (load_packs read_file embedded decode default_rules (n ∷ ns)) _ e in
        let loads = load_packs-Loads (n ∷ ns) l in
        let y_eq : y ≡ (y.0, sources_of (n ∷ ns) y.0) = cc (l, load_packs-eq loads) in
        let (m, o, last) = >>=-eq-resolved (of_outcome (merge y.0)) _ rest in
        let (filled, distinct, m_eq) = (merge_iff y.0 m).0 (of_outcome-eq-resolved (merge y.0) o) in
        let both : (m, y.1) ≡ (cfg, names) = cc in
        let named : y.1 ≡ sources_of (n ∷ ns) y.0 =
          ap (λ (z : List Config × List String). z.1) y_eq in
        (
          y.0,
          loads,
          filled,
          distinct,
          sym (ap (λ (z : Config × List String). z.0) both) ∙ m_eq ∙ merged_of-eq y.0,
          (sources_of-GoBy_iff names loads).1
              (sym (ap (λ (z : Config × List String). z.1) both) ∙ named),
        ),
    λ (cs, loads, filled, distinct, cfg_eq, named).
        let merged = (merge_iff cs cfg).1 (filled, distinct, cfg_eq ∙ sym (merged_of-eq cs)) in
        rw (load_packs-eq loads, merged, (sources_of-GoBy_iff names loads).0 named),
  )
