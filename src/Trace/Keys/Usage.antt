-- ===== src/Trace/Keys/Usage.antt =====
-- internal/trace/keys.go, `KeyUsageOf`: every operation of the trace is counted for one key.
use hsm_doctor.Base.{
  ℕ, ◌+◌, String, ◌≡◌, refl, Bool, true, false, ◌&&◌, none, some, List, [], ◌∷◌, ◌++◌, ◌==◌, inl,
  inr, arith, eq_iff, map, total, total-append, tally, Bool-cases, Option-cases, if◌then◌else◌,
}
use hsm_doctor.Base.Sort.{sort_by-total}
use hsm_doctor.Base.Dict.{lookup, or_zero, string_eq, nat_eq, values}
use hsm_doctor.Base.Dict.Unique.{insert-total}
use hsm_doctor.Trace.Event.{Event, session_or_zero}
use hsm_doctor.Trace.Report.{one_of}
use hsm_doctor.Trace.Keys.{
  operation_init, UsageAgg, State, start, fresh_agg, add_use, bound, attribute, bind, step, loop,
  usage_of, usage_before, key_usage_of, identity_key, no_identity,
}

-- The event is a key operation on a handle.
abbrev pub is_use : Event → Bool
is_use e = one_of operation_init e.function && elim e.object [ none ↦ false | some h ↦ true ]

abbrev calls : UsageAgg → ℕ
calls u = total (λ n. n) (values u.ops)

abbrev state_calls : State → ℕ
state_calls s = total calls (values s.by_identity) + total calls (values s.by_handle)

add_use-calls : (e : Event) (u : UsageAgg) → calls (add_use e u) ≡ calls u + 1
unfolding add_use
add_use-calls e u =
    omega (
      arith,
      insert-total (λ n. n) 0 e.function (or_zero 0 (lookup e.function u.ops) + 1) u.ops refl,
    )

attribute-calls :
    (s : State) (e : Event) (h : ℕ) → state_calls (attribute s e h) ≡ state_calls s + 1
unfolding attribute
attribute-calls s e h = elim (Option-cases (bound s (session_or_zero e) h)) [
  | inl none_bound ↦
      rw (attribute, none_bound)
        (let old = or_zero (fresh_agg no_identity h) (lookup h s.by_handle) in
          omega (
            arith,
            add_use-calls e old,
            insert-total calls (fresh_agg no_identity h) h (add_use e old) s.by_handle refl,
          ))
  | inr (i, p) ↦
      rw (attribute, p)
        (let old = or_zero (fresh_agg i 0) (lookup i s.by_identity) in
          omega (
            arith,
            add_use-calls e old,
            insert-total calls (fresh_agg i 0) i (add_use e old) s.by_identity refl,
          ))
]

bind-calls : (s : State) (e : Event) (h : ℕ) → state_calls (bind s e h) ≡ state_calls s
unfolding bind
bind-calls s e h = ground arith

searching_is_no_use :
    (e : Event) (name : String)
    → one_of operation_init name ≡ false
    → (e.function == name) ≡ true
    → is_use e ≡ false
searching_is_no_use e name h p = rw ((eq_iff e.function name).0 p, h) refl

step-calls :
    (s : State) (e : Event) → state_calls (step s e) ≡ state_calls s + (if is_use e then 1 else 0)
unfolding step
step-calls s e = elim (Bool-cases (e.function == "C_FindObjectsInit")) [
  | inl init ↦ rw (step, init, searching_is_no_use e "C_FindObjectsInit" refl init) (omega arith)
  | inr no_init ↦ elim (Bool-cases (e.function == "C_FindObjects")) [
    | inl find ↦
        rw (step, no_init, find, searching_is_no_use e "C_FindObjects" refl find)
          (elim (Option-cases e.object) [
            | inl p ↦ rw p (omega arith)
            | inr (h, p) ↦ rw p (omega (arith, bind-calls s e h))
          ])
    | inr no_find ↦ elim (Option-cases e.object) [
      | inl p ↦ rw (step, no_init, no_find, p) (ground arith)
      | inr (h, p) ↦ rw (step, no_init, no_find, p) (ground (arith, attribute-calls s e h))
    ]
  ]
]

loop-calls :
    (s : State) (es : List Event) → state_calls (loop s es) ≡ state_calls s + tally is_use es
unfolding loop
loop-calls s [] = omega arith
loop-calls s (e ∷ es) = omega (arith, step-calls s e, loop-calls (step s e) es)

usage_of-total :
    (r : Bool) (us : List UsageAgg)
    → total (λ k. k.total_calls) (map (usage_of r) us) ≡ total calls us
unfolding usage_of
usage_of-total r [] = refl
usage_of-total r (u ∷ us) = omega (arith, usage_of-total r us)

-- Nothing is lost and nothing is counted twice: the calls of all reported keys add up to the
-- number of key operations on a handle in the trace.
pub key_usage_of-total :
    (es : List Event) → total (λ k. k.total_calls) ((key_usage_of es).keys) ≡ tally is_use es
unfolding key_usage_of
key_usage_of-total es =
    let s = loop start es in
    omega (
      arith,
      sort_by-total usage_before (λ k. k.total_calls)
          (map (usage_of true) (values s.by_identity) ++ map (usage_of false) (values s.by_handle)),
      total-append (λ k. k.total_calls) (map (usage_of true) (values s.by_identity))
          (map (usage_of false) (values s.by_handle)),
      usage_of-total true (values s.by_identity),
      usage_of-total false (values s.by_handle),
      loop-calls start es,
    )
