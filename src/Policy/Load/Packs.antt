-- ===== src/Policy/Load/Packs.antt =====
-- internal/policy/policy.go: which packs `Merge` joins, and what it makes of them.
use mathlib.Core.List.{append-nil, append_assoc}
use hsm_doctor.Base.{
  String, ◌≡◌, ◌≢◌, ◌↔◌, sym, ap, ◌∙◌, Option, none, List, [], ◌∷◌, ◌++◌, arith, if◌then◌else◌,
  List-cases, Option-cases, inl, inr,
}
use mathlib.Core.Path.{subst}
use hsm_doctor.Base.Dict.{Dict, lookup, insert, string_eq}
use hsm_doctor.Policy.Severity.{Scoring}
use hsm_doctor.Policy.Condition.{Rule, Config, is_empty}
use hsm_doctor.Policy.Load.{
  Outcome, ok, err, >>=-eq-ok, pack_name, merge_rules, merge_packs, merge, no_config, first_scoring,
  no_rules,
}
use hsm_doctor.Policy.Load.Ids.{IsDistinct, IsFresh, IsFresh-nil, IsFresh-cons_iff}

-- The ids that are seen after a pack.
register : String → List Rule → Dict String String → Dict String String
register pack [] seen = seen
register pack (r ∷ rs) seen = register pack rs (insert r.id pack seen)

merge_rules-eq :
    (pack : String) (rs : List Rule) (seen : Dict String String) (merged : List Rule)
    → IsFresh seen rs
    → merge_rules pack rs seen merged ≡ ok (register pack rs seen, merged ++ rs)
unfolding merge_rules register
merge_rules-eq pack [] seen merged h = rw append-nil
merge_rules-eq pack (r ∷ rs) seen merged h =
    let (new, later) = (IsFresh-cons_iff seen pack r rs).0 h in
    ground (
      arith,
      new,
      merge_rules-eq pack rs (insert r.id pack seen) (merged ++ r ∷ []) later,
      append_assoc merged (r ∷ []) rs,
    )

merge_rules-IsFresh :
    (pack : String) (rs : List Rule) (seen : Dict String String) (merged : List Rule)
    {x : Dict String String × List Rule}
    → merge_rules pack rs seen merged ≡ ok x
    → IsFresh seen rs
unfolding merge_rules
merge_rules-IsFresh pack [] seen merged e = (tt, tt)
merge_rules-IsFresh pack (r ∷ rs) seen merged {x} e = elim (Option-cases (lookup r.id seen)) [
  | inl new ↦ (IsFresh-cons_iff seen pack r rs).1 (
    new,
    merge_rules-IsFresh pack rs (insert r.id pack seen) (merged ++ r ∷ []) {x = x} (ground arith),
  )
  | inr (owner, old) ↦ absurd (ground arith)
]

IsFresh-append_iff :
    (pack : String) (rs qs : List Rule) (seen : Dict String String)
    → IsFresh seen (rs ++ qs) ↔ (IsFresh seen rs × IsFresh (register pack rs seen) qs)
unfolding register
IsFresh-append_iff pack [] qs seen = (λ h. ((tt, tt), h), λ h. h.1)
IsFresh-append_iff pack (r ∷ rs) qs seen =
    let (to, from) = IsFresh-append_iff pack rs qs (insert r.id pack seen) in
    let (split, join) = IsFresh-cons_iff seen pack r (rs ++ qs) in
    let (split', join') = IsFresh-cons_iff seen pack r rs in
    (
      λ h. let (new, later) = split h in let (a, b) = to later in (join' (new, a), b),
      λ (h, b). let (new, a) = split' h in join (new, from (a, b)),
    )

-- The rules of all packs, in order.
abbrev pub all_rules : List Config → List Rule
all_rules [] = []
all_rules (cfg ∷ rest) = cfg.rules ++ all_rules rest

-- The first scoring section, if there is one.
abbrev pub first_of_packs : Option Scoring → List Config → Option Scoring
first_of_packs s [] = s
first_of_packs s (cfg ∷ rest) = first_of_packs (first_scoring s cfg.scoring) rest

joined : Config → List Config → Config
joined m configs = record m {
  rules = m.rules ++ all_rules configs;
  scoring = first_of_packs m.scoring configs;
}

merge_packs-eq :
    (configs : List Config) (seen : Dict String String) (m : Config)
    → IsFresh seen (all_rules configs)
    → merge_packs configs seen m ≡ ok (joined m configs)
unfolding merge_packs joined
merge_packs-eq [] seen m h =
    ap (λ l. ok (record m { rules = l; scoring = m.scoring })) (sym (append-nil m.rules))
merge_packs-eq (cfg ∷ rest) seen m h =
    let pack = pack_name cfg in
    let (here, later) = (IsFresh-append_iff pack cfg.rules (all_rules rest) seen).0 h in
    rw (merge_rules-eq pack cfg.rules seen m.rules here) (
      merge_packs-eq rest (register pack cfg.rules seen) _ later
      ∙ ap
          (λ l. ok (record m {
            rules = l;
            scoring = first_of_packs (first_scoring m.scoring cfg.scoring) rest;
          }))
          (append_assoc m.rules cfg.rules (all_rules rest)))

merge_packs-IsFresh :
    (configs : List Config) (seen : Dict String String) (m : Config) {x : Config}
    → merge_packs configs seen m ≡ ok x
    → IsFresh seen (all_rules configs)
unfolding merge_packs
merge_packs-IsFresh [] seen m e = (tt, tt)
merge_packs-IsFresh (cfg ∷ rest) seen m e =
    let pack = pack_name cfg in
    let (y, p, q) = >>=-eq-ok (merge_rules pack cfg.rules seen m.rules) _ e in
    let here = merge_rules-IsFresh pack cfg.rules seen m.rules p in
    let e' = rw (merge_rules-eq pack cfg.rules seen m.rules here) at e in
    (IsFresh-append_iff pack cfg.rules (all_rules rest) seen).1
      (here, merge_packs-IsFresh rest (register pack cfg.rules seen) _ e')

-- What `Merge` makes of packs that it accepts.
abbrev pub merged_of : List Config → Config
merged_of configs = record {
  pack = none;
  rules = all_rules configs;
  scoring = first_of_packs none configs;
}

module _ (configs : List Config) where
  abbrev checked : Outcome Config
  checked = if is_empty (all_rules configs) then err no_rules else ok (merged_of configs)

  ok_of_filled : all_rules configs ≢ [] → checked ≡ ok (merged_of configs)
  ok_of_filled h = elim (List-cases (all_rules configs)) [
    | inl e ↦ absurd (h e)
    | inr (r, rs, e) ↦ ground arith
  ]

  module _ {m : Config} (h : checked ≡ ok m) where
    filled_of_ok : all_rules configs ≢ []
    filled_of_ok e = ground arith

    eq_of_ok : m ≡ merged_of configs
    eq_of_ok = ground arith

-- Packs are merged exactly when there are rules and no two rules of any packs share an id; the
-- result then has all the rules, in the order of the packs, and the first scoring section that a
-- pack has.
pub merge_iff :
    (configs : List Config) (m : Config)
    → (merge configs ≡ ok m)
      ↔ ((all_rules configs ≢ []) × IsDistinct (all_rules configs) × (m ≡ merged_of configs))
unfolding merge joined
merge_iff configs m = (
  λ e.
      let (y, p, q) = >>=-eq-ok (merge_packs configs [] no_config) _ e in
      let fresh = merge_packs-IsFresh configs [] no_config p in
      let y_eq : y ≡ merged_of configs = cc (p, merge_packs-eq configs [] no_config fresh) in
      let q' =
        subst (λ (z : Config). (if is_empty z.rules then err no_rules else ok z) ≡ ok m) y_eq q in
      (filled_of_ok configs q', fresh.1, eq_of_ok configs q'),
  λ (some_rules, d, e).
      let fresh = IsFresh-nil String (all_rules configs) d in
      rw (merge_packs-eq configs [] no_config fresh, e) (ok_of_filled configs some_rules),
)
