-- ===== src/Trace/Keys/Idle.antt =====
-- internal/trace/keys.go, `IdleKeys`: which keys of an inventory a trace never used.
use hsm_doctor.Base.{
  ◌≡◌, ◌↔◌, Bool, true, false, not, ◌&&◌, ◌||◌, List, [], ◌∷◌, ◌==◌, String, inl, inr, arith,
  eq_iff, any, any_none_iff, All, Elem, Bool-cases,
}
use hsm_doctor.Base.Dict.{Dict, lookup, lookup-insert, string_eq}
use hsm_doctor.Trace.Keys.{
  KeyUsage, KeyRef, KeyUsageReport, Used, used_loop, is_marked, nothing_used, idle_loop, idle_keys,
  mark,
}

-- A used key and an inventory key share an id, or a label, that is not empty.
abbrev pub matches : KeyRef → KeyUsage → Bool
matches c k =
    k.resolved
    && ((not (c.key_id == "") && k.key_id == c.key_id)
        || (not (c.label == "") && k.label == c.label))

marked : Used → KeyRef → Bool
marked u c = is_marked c.key_id u.ids || is_marked c.label u.labels

is_marked-mark :
    (k j : String) (m : Dict String Bool)
    → is_marked j (mark k m) ≡ (is_marked j m || (not (j == "") && k == j))
is_marked-mark k j m =
    ground (arith, lookup-insert k j true m, eq_iff k "", eq_iff j "", eq_iff k j)

used_loop-marked :
    (u : Used) (ks : List KeyUsage) (c : KeyRef)
    → marked (used_loop u ks) c ≡ (marked u c || any (matches c) ks)
unfolding used_loop marked
used_loop-marked u [] c = ground arith
used_loop-marked u (k ∷ ks) c = elim (Bool-cases k.resolved) [
  | inl r ↦ ground (
    arith,
    r,
    is_marked-mark k.key_id c.key_id u.ids,
    is_marked-mark k.label c.label u.labels,
    used_loop-marked (record { ids = mark k.key_id u.ids; labels = mark k.label u.labels }) ks c,
  )
  | inr r ↦ ground (arith, r, used_loop-marked u ks c)
]

idle_loop-Elem_iff :
    (u : Used) (cs : List KeyRef) (c : KeyRef)
    → Elem c (idle_loop u cs) ↔ (Elem c cs × (marked u c ≡ false))
unfolding idle_loop marked
idle_loop-Elem_iff u [] c = (λ n. absurd n, λ h. absurd h.0)
idle_loop-Elem_iff u (x ∷ cs) c =
    let (to, from) = idle_loop-Elem_iff u cs c in
    elim (Bool-cases (is_marked x.key_id u.ids || is_marked x.label u.labels)) [
      | inl used ↦ rw used (
        λ m. let (n, f) = to m in (inr n, f),
        λ (m, f). elim m [ inl e ↦ cc | inr n ↦ from (n, f) ],
      )
      | inr idle ↦ rw idle (
        elim [ inl e ↦ (inl e, rw e idle) | inr m ↦ let (n, f) = to m in (inr n, f) ],
        λ (m, f). elim m [ inl e ↦ inl e | inr n ↦ inr (from (n, f)) ],
      )
    ]

nothing_marked : (c : KeyRef) → marked nothing_used c ≡ false
unfolding marked lookup
nothing_marked c = ground arith

-- A key is reported as idle exactly when it is one of the candidates and no key that the trace
-- used by name shares its id or its label with it, where an empty id or label is never shared.
pub idle_keys-Elem_iff :
    (r : KeyUsageReport) (cs : List KeyRef) (c : KeyRef)
    → Elem c (idle_keys r cs) ↔ (Elem c cs × All (λ k. matches c k ≡ false) r.keys)
unfolding idle_keys
idle_keys-Elem_iff r cs c =
    let (to, from) = idle_loop-Elem_iff (used_loop nothing_used r.keys) cs c in
    let all = any_none_iff (matches c) r.keys in
    let used = used_loop-marked nothing_used r.keys c in
    let fresh = nothing_marked c in
    (λ m. let (n, f) = to m in (n, all.0 (ground arith)), λ (n, h). from (n, ground arith))
